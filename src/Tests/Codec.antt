-- ===== src/Tests/Codec.antt =====
-- A marshaller for the tests: each value as numbers above 10, with the length before a list.
use rallish.Prelude.{
  ℕ, zero, suc, ◌+◌, ◌-◌, ◌≡◌, ◌≢◌, refl, Bool, true, false, Option, none, some, List, [], ◌∷◌,
  ◌++◌, Text, arith, some-injective, All-append, length,
}
use mathlib.Core.List.{append-nil, append_assoc}
use rallish.Prelude.Int.{ℤ, pos, negsuc}
use rallish.Contract.Json.{Json, newline, HasNoNewline}

pub record Codec {ℓ} (A : Type ℓ) : Type ℓ where
  pub put : A → Text
  pub get : Text → Option (A × Text)
  pub get-put : (a : A) (rest : Text) → get (put a ++ rest) ≡ some (a, rest)
  pub clean : (a : A) → HasNoNewline (put a)

pub above : (n : ℕ) → n + 11 ≢ newline
above n e = absurd (omega arith)

abbrev get_nat : Text → Option (ℕ × Text)
get_nat [] = none
get_nat (c ∷ s) = some (c - 11, s)

abbrev pub nat_codec : Codec ℕ
nat_codec = record {
  put = λ n. (n + 11) ∷ [];
  get = get_nat;
  get-put = λ n rest. let e : n + 11 - 11 ≡ n = omega arith in rw e refl;
  clean = λ n. (above n, tt);
}

abbrev pub then_get {ℓ κ} :
    {A : Type ℓ} {B : Type κ}
    → Option (A × Text)
    → (A → Text → Option (B × Text))
    → Option (B × Text)
then_get none next = none
then_get (some (a, s)) next = next a s

abbrev pub give {ℓ κ} : {A : Type ℓ} {B : Type κ} → (A → B) → Option (A × Text) → Option (B × Text)
give f none = none
give f (some (a, s)) = some (f a, s)

-- The same values under other names.
abbrev pub iso_codec {ℓ κ} :
    {A : Type ℓ} {B : Type κ}
    → Codec A
    → (f : A → B) (g : B → A) → ((b : B) → f (g b) ≡ b)
    → Codec B
iso_codec c f g fg = record {
  put = λ b. c.put (g b);
  get = λ s. give f (c.get s);
  get-put = λ b rest. rw (c.get-put (g b) rest, fg b) refl;
  clean = λ b. c.clean (g b);
}

abbrev pub pair_codec {ℓ κ} : {A : Type ℓ} {B : Type κ} → Codec A → Codec B → Codec (A × B)
pair_codec ca cb = record {
  put = λ (a, b). ca.put a ++ cb.put b;
  get = λ s. then_get (ca.get s) (λ a t. give (λ b. (a, b)) (cb.get t));
  get-put = λ (a, b) rest.
      rw
        (
          append_assoc (ca.put a) (cb.put b) rest,
          ca.get-put a (cb.put b ++ rest),
          cb.get-put b rest,
        )
        refl;
  clean = λ (a, b). All-append (λ c. c ≢ newline) (ca.put a) (cb.put b) (ca.clean a) (cb.clean b);
}

module _ {ℓ} {A : Type ℓ} (c : Codec A) where
  abbrev put_all : List A → Text
  put_all [] = []
  put_all (x ∷ xs) = c.put x ++ put_all xs

  abbrev get_all : ℕ → Text → Option (List A × Text)
  get_all zero s = some ([], s)
  get_all (suc n) s = then_get (c.get s) (λ x t. give (λ xs. x ∷ xs) (get_all n t))

  get_all-put_all :
      (xs : List A) (rest : Text) → get_all (length xs) (put_all xs ++ rest) ≡ some (xs, rest)
  get_all-put_all [] rest = refl
  get_all-put_all (x ∷ xs) rest =
      rw
        (
          append_assoc (c.put x) (put_all xs) rest,
          c.get-put x (put_all xs ++ rest),
          get_all-put_all xs rest,
        )
        refl

  pub put_all-clean : (xs : List A) → HasNoNewline (put_all xs)
  put_all-clean [] = tt
  put_all-clean (x ∷ xs) =
      All-append (λ b. b ≢ newline) (c.put x) (put_all xs) (c.clean x) (put_all-clean xs)

  abbrev get_list : Text → Option (List A × Text)
  get_list s = then_get (get_nat s) get_all

  pub get_list-put_list :
      (xs : List A) (rest : Text)
      → get_list ((length xs + 11) ∷ put_all xs ++ rest) ≡ some (xs, rest)
  get_list-put_list xs rest =
      let e : length xs + 11 - 11 ≡ length xs = omega arith in rw e (get_all-put_all xs rest)

  abbrev pub list_codec : Codec (List A)
  list_codec = record {
    put = λ xs. (length xs + 11) ∷ put_all xs;
    get = get_list;
    get-put = get_list-put_list;
    clean = λ xs. (above (length xs), put_all-clean xs);
  }

abbrev pub text_codec : Codec Text
text_codec = list_codec nat_codec

abbrev to_option {ℓ} : {A : Type ℓ} → List A → Option A
to_option [] = none
to_option (a ∷ as') = some a

abbrev of_option {ℓ} : {A : Type ℓ} → Option A → List A
of_option none = []
of_option (some a) = a ∷ []

pub to_option-of_option {ℓ} : {A : Type ℓ} (o : Option A) → to_option (of_option o) ≡ o
to_option-of_option none = refl
to_option-of_option (some a) = refl

abbrev pub option_codec {ℓ} : {A : Type ℓ} → Codec A → Codec (Option A)
option_codec c = iso_codec (list_codec c) to_option of_option to_option-of_option

abbrev to_int : ℕ × ℕ → ℤ
to_int (zero, n) = pos n
to_int (suc s, n) = negsuc n

abbrev of_int : ℤ → ℕ × ℕ
of_int (pos n) = (0, n)
of_int (negsuc n) = (1, n)

pub to_int-of_int : (z : ℤ) → to_int (of_int z) ≡ z
to_int-of_int (pos n) = refl
to_int-of_int (negsuc n) = refl

abbrev pub int_codec : Codec ℤ
int_codec = iso_codec (pair_codec nat_codec nat_codec) to_int of_int to_int-of_int

abbrev to_bool : ℕ → Bool
to_bool zero = false
to_bool (suc n) = true

abbrev of_bool : Bool → ℕ
of_bool false = 0
of_bool true = 1

pub to_bool-of_bool : (b : Bool) → to_bool (of_bool b) ≡ b
to_bool-of_bool true = refl
to_bool-of_bool false = refl

abbrev pub bool_codec : Codec Bool
bool_codec = iso_codec nat_codec to_bool of_bool to_bool-of_bool

abbrev pub value_of {ℓ} : {A : Type ℓ} → Option (A × Text) → Option A
value_of none = none
value_of (some (a, rest)) = some a

abbrev pub read {ℓ} : {A : Type ℓ} → Codec A → Text → Option A
read c [] = none
read c (b ∷ s) = value_of (c.get s)

pub read-put {ℓ} :
    {A : Type ℓ} (c : Codec A) (a : A) (text : Text)
    → some (b'{' ∷ c.put a) ≡ some text
    → read c text ≡ some a
read-put c a text m = rw (← (some-injective m), ← (append-nil (c.put a)), c.get-put a []) refl

-- A value in braces' place, with nothing refused.
abbrev pub codec_json {ℓ} : {A : Type ℓ} → Codec A → Json A
codec_json c = record {
  marshal = λ a. some (b'{' ∷ c.put a);
  unmarshal = read c;
  is_utf8 = λ a. true;
  unmarshal-marshal = λ a text u m. read-put c a text m;
}
