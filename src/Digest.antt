-- ===== src/Digest.antt =====
-- SHA-256 (package crypto/sha256) as an interface: a digest is 32 bytes. Nothing else is assumed
-- of it; a theorem that needs more hands back a
-- collision among the inputs that the program has hashed.
use native.Mathlib.Decide.{ℕ_discrete}
use rallish.Prelude.{ℕ, ◌≡◌, ◌≢◌, ◌⊎◌, inl, inr, List, length}
use rallish.Hex.{AreBytes}

-- sha256.Size.
abbrev pub digest_size : ℕ
digest_size = 32

abbrev pub IsDigest : List ℕ → Type 0
IsDigest d = (length d ≡ digest_size) × AreBytes d

pub record Sha256 : Type 0 where
  pub sum : List ℕ → List ℕ
  pub sum-IsDigest : (bs : List ℕ) → IsDigest (sum bs)

-- Two different inputs with one digest, among given ones: every digest collides somewhere.
pub record Collision (h : Sha256) (P Q : List ℕ → Type 0) : Type 0 where
  pub left : List ℕ
  pub right : List ℕ
  pub left_given : P left
  pub right_given : Q right
  pub distinct : left ≢ right
  pub same_digest : h.sum left ≡ h.sum right

bytes-discrete : Discrete (List ℕ)
bytes-discrete = hlevel ℕ_discrete

-- Equal digests come from equal inputs, or collide.
pub sum-injective :
    (h : Sha256) (P Q : List ℕ → Type 0) (xs ys : List ℕ)
    → P xs
    → Q ys
    → h.sum xs ≡ h.sum ys
    → (xs ≡ ys) ⊎ Collision h P Q
sum-injective h P Q xs ys p q e = elim (bytes-discrete xs ys) [
  | yes same ↦ inl same
  | no other ↦ inr (record {
    left = xs;
    right = ys;
    left_given = p;
    right_given = q;
    distinct = other;
    same_digest = e;
  })
]

-- A collision among fewer inputs.
pub widen :
    {h : Sha256} {P Q P' Q' : List ℕ → Type 0}
    → ((t : List ℕ) → P t → P' t)
    → ((t : List ℕ) → Q t → Q' t)
    → Collision h P Q
    → Collision h P' Q'
widen f g c = record {
  left = c.left;
  right = c.right;
  left_given = f c.left c.left_given;
  right_given = g c.right c.right_given;
  distinct = c.distinct;
  same_digest = c.same_digest;
}
