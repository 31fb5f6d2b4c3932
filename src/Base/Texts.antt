-- ===== src/Base/Texts.antt =====
-- Go strings: lists of bytes, with a decided equality.
use Prim.Native.Nat.{ℕ, ◌+◌}
use Prim.Native.Char.{code}
use Prim.Native.String.{String}
use mathlib.Core.Path.{◌≡◌, refl, subst}
use mathlib.Core.Bool.{Bool, true, false, ◌&&◌}
use mathlib.Core.List.{List, [], ◌∷◌, ◌++◌, map}
use native.Mathlib.Decide.{ℕ_discrete}
use native.Mathlib.Omega.{arith}
use simple_mining_proxy.Base.Lists.{All}
use simple_mining_proxy.Base.Tests.{leb, is_yes, if◌then◌else◌}

abbrev pub Text : Type 0
Text = List ℕ

-- The bytes of an ASCII literal.
abbrev pub txt : String → Text
txt String.[] = []
txt (String.◌∷◌ c s) = code c ∷ txt s

unfoldable pub text_eq : Discrete Text
unfolding ℕ_discrete
text_eq = hlevel ℕ_discrete

-- `a == b` on strings.
abbrev pub same : Text → Text → Bool
same a b = is_yes (text_eq a b)

pub same_refl : (a : Text) → same a a ≡ true
same_refl a = ground arith

-- `strings.ToLower` on ASCII text.
unfoldable pub lower_byte : ℕ → ℕ
lower_byte c = if leb b'A' c && leb c b'Z' then c + 32 else c

unfoldable pub to_lower : Text → Text
unfolding lower_byte
to_lower = map lower_byte

-- `slices.Contains`, and `seen[id]` of the loops that collect ids.
abbrev pub mem : Text → List Text → Bool
mem a [] = false
mem a (x ∷ xs) = if same x a then true else mem a xs

-- No text stands twice.
abbrev pub Distinct : List Text → Type 0
Distinct [] = Unit
Distinct (x ∷ xs) = (mem x xs ≡ false) × Distinct xs

-- None of the texts has been seen.
abbrev pub Fresh : List Text → List Text → Type 0
Fresh seen = All (λ x. mem x seen ≡ false)

-- To be new after `a` was seen is to be other than `a` and new before.
pub Fresh-tail :
    (a : Text) (seen xs : List Text) → Fresh (a ∷ seen) xs → (mem a xs ≡ false) × Fresh seen xs
Fresh-tail a seen [] h = (refl, tt)
Fresh-tail a seen (x ∷ xs) h = let (unseen, others) = Fresh-tail a seen xs h.1 in ground arith

pub Fresh-cons :
    (a : Text) (seen xs : List Text) → mem a xs ≡ false → Fresh seen xs → Fresh (a ∷ seen) xs
Fresh-cons a seen [] m h = tt
Fresh-cons a seen (x ∷ xs) m h = (ground arith, Fresh-cons a seen xs (ground arith) h.1)

pub Fresh-nil : (xs : List Text) → Fresh [] xs
Fresh-nil [] = tt
Fresh-nil (x ∷ xs) = (refl, Fresh-nil xs)

-- `without`: the texts other than `a`.
unfoldable pub without : List Text → Text → List Text
without [] a = []
without (x ∷ xs) a = if same x a then without xs a else x ∷ without xs a

pub mem-without :
    (a b : Text) (xs : List Text) → mem b (without xs a) ≡ (if same a b then false else mem b xs)
unfolding without
mem-without a b [] = ground arith
mem-without a b (x ∷ xs) = ground (arith, mem-without a b xs)

pub without-Distinct : (a : Text) (xs : List Text) → Distinct xs → Distinct (without xs a)
unfolding without
without-Distinct a [] h = tt
without-Distinct a (x ∷ xs) h = ground (arith, without-Distinct a xs h.1, mem-without a x xs)

pub without_absent : (a : Text) (xs : List Text) → mem a xs ≡ false → without xs a ≡ xs
unfolding without
without_absent a [] h = refl
without_absent a (x ∷ xs) h = ground (arith, without_absent a xs)

pub mem-append_one :
    (a b : Text) (xs : List Text) → mem b (xs ++ a ∷ []) ≡ (if mem b xs then true else same a b)
mem-append_one a b [] = ground arith
mem-append_one a b (x ∷ xs) = ground (arith, mem-append_one a b xs)

pub Distinct-append_one :
    (a : Text) (xs : List Text) → Distinct xs → mem a xs ≡ false → Distinct (xs ++ a ∷ [])
Distinct-append_one a [] d m = (refl, tt)
Distinct-append_one a (x ∷ xs) d m =
    ground (arith, mem-append_one a x xs, Distinct-append_one a xs d.1)

pub Fresh-append_one :
    (a : Text) (seen xs : List Text) → Fresh seen xs → mem a xs ≡ false → Fresh (seen ++ a ∷ []) xs
Fresh-append_one a seen [] h m = tt
Fresh-append_one a seen (x ∷ xs) h m =
    ground (arith, mem-append_one a x seen, Fresh-append_one a seen xs h.1)

pub All-without {ℓ} :
    (P : Text → Type ℓ) (a : Text) (xs : List Text) → All P xs → All P (without xs a)
unfolding without
All-without P a [] h = tt
All-without P a (x ∷ xs) h = ground (arith, All-without P a xs h.1)

-- What holds of all of a list holds of a member.
pub All-mem {ℓ} : (P : Text → Type ℓ) (a : Text) (xs : List Text) → All P xs → mem a xs ≡ true → P a
All-mem P a [] h m = cc
All-mem P a (x ∷ xs) h m = elim (text_eq x a) [
  | yes e ↦ subst P e h.0
  | no n ↦ All-mem P a xs h.1 (ground arith)
]

same_test : same (txt "ab") (txt "ab") ≡ true
unfolding text_eq
same_test = refl
