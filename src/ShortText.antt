-- ===== src/ShortText.antt =====
-- utils/helpers/shortstr.go: the short text of a text, which the keys of sessions and of options are made of.
-- Of crypto/md5 there is the parameter `word`, the number that eight hexadecimal digits of the hash spell.
use web3_rpc_proxy.Prelude.{
  ℕ, zero, suc, ◌+◌, ◌*◌, ◌/◌, ◌%◌, ◌≤◌, ◌<◌, String, ◌≡◌, refl, ap, ◌∙◌, length-append, Option,
  none, some, List, [], ◌∷◌, ◌++◌, length, get_elem?, arith,
}

abbrev pub chars : List String
chars =
    "a" ∷ "b" ∷ "c" ∷ "d" ∷ "e" ∷ "f" ∷ "g" ∷ "h" ∷ "i" ∷ "j" ∷ "k" ∷ "l" ∷ "m" ∷ "n" ∷ "o" ∷ "p"
    ∷ "q" ∷ "r" ∷ "s" ∷ "t" ∷ "u" ∷ "v" ∷ "w" ∷ "x" ∷ "y" ∷ "z" ∷ "0" ∷ "1" ∷ "2" ∷ "3" ∷ "4" ∷ "5"
    ∷ "6" ∷ "7" ∷ "8" ∷ "9" ∷ "A" ∷ "B" ∷ "C" ∷ "D" ∷ "E" ∷ "F" ∷ "G" ∷ "H" ∷ "I" ∷ "J" ∷ "K" ∷ "L"
    ∷ "M" ∷ "N" ∷ "O" ∷ "P" ∷ "Q" ∷ "R" ∷ "S" ∷ "T" ∷ "U" ∷ "V" ∷ "W" ∷ "X" ∷ "Y" ∷ "Z" ∷ []

-- `lHex & 0x3D`: the bits of 61, which are the lowest and the third to the sixth.
unfoldable pub index : ℕ → ℕ
index n = n % 2 + 4 * (n / 4 % 16)

-- Characters for a number, `lHex >>= 5` after each; an index out of range is a panic.
unfoldable pub letters : ℕ → ℕ → Option (List String)
unfolding index
letters zero n = some []
letters (suc k) n =
    let rest = letters k (n / 32) in
    elim (get_elem? chars (index n)) [
      | none ↦ none
      | some c ↦ elim rest [ none ↦ none | some cs ↦ some (c ∷ cs) ]
    ]

unfoldable pub append_both : Option (List String) → Option (List String) → Option (List String)
append_both (some a) (some b) = some (a ++ b)
append_both _ b = none

-- `Short`: six characters for each of the first two of the four numbers; those of the others are not used.
unfoldable pub short : (String → ℕ → ℕ) → String → Option (List String)
unfolding letters append_both
short word text = append_both (letters 6 (word text 0)) (letters 6 (word text 1))

index-le : (n : ℕ) → index n ≤ 61
unfolding index
index-le n = omega arith

get_elem?-some {ℓ} :
    {A : Type ℓ} (xs : List A) (i : ℕ) → i < length xs → (x : A) × (get_elem? xs i ≡ some x)
get_elem?-some [] i h = absurd (omega arith)
get_elem?-some (x ∷ xs) zero h = (x, refl)
get_elem?-some (x ∷ xs) (suc i) h = get_elem?-some xs i (omega arith)

letters-length : (k n : ℕ) → (cs : List String) × (letters k n ≡ some cs) × (length cs ≡ k)
unfolding letters
letters-length zero n = ([], refl, refl)
letters-length (suc k) n =
    let (c, e) = get_elem?-some chars (index n) (omega (arith, index-le n)) in
    let (cs, f, l) = letters-length k (n / 32) in (c ∷ cs, ground (arith, e, f), omega (arith, l))

append_both-some : (a b : List String) → append_both (some a) (some b) ≡ some (a ++ b)
unfolding append_both
append_both-some a b = refl

-- Every text has a short text: no index of its characters is out of range, and there are twelve of them.
pub short-length :
    (word : String → ℕ → ℕ) (text : String)
    → (cs : List String) × (short word text ≡ some cs) × (length cs ≡ 12)
unfolding short
short-length word text =
    let (a, e, l) = letters-length 6 (word text 0) in
    let (b, f, m) = letters-length 6 (word text 1) in
    (
      a ++ b,
      ap (λ x. append_both x (letters 6 (word text 1))) e
          ∙ ap (append_both (some a)) f
          ∙ append_both-some a b,
      omega (arith, l, m, length-append a b),
    )
