-- ===== src/UrlDecode/Strings.antt =====
-- What decoding a query means, on lists of bytes.
use Prim.{Unit}
use dnbd3_fuse_lowlevel.Prelude.{
  ℕ, zero, suc, ◌+◌, ◌≡◌, List, [], ◌∷◌, Option, none, some, ◌==◌, if◌then◌else◌,
}
use dnbd3_fuse_lowlevel.UrlDecode.{Memory, escape}

-- The bytes before the first `c`, and those behind it, if it is there.
unfoldable pub before : ℕ → List ℕ → List ℕ
before c [] = []
before c (x ∷ xs) = let rest = before c xs in if x == c then [] else x ∷ rest

unfoldable pub behind : ℕ → List ℕ → Option (List ℕ)
behind c [] = none
behind c (x ∷ xs) = let rest = behind c xs in if x == c then some xs else rest

unfoldable pub plain : ℕ → ℕ
plain c = if c == 43 then 32 else c

-- A plus sign is a space, a percent sign with two digits a byte.
unfoldable pub unescape : List ℕ → List ℕ
unescape [] = []
unescape (c ∷ []) = plain c ∷ []
unescape (c ∷ a ∷ []) = plain c ∷ unescape (a ∷ [])
unescape (c ∷ a ∷ b ∷ xs) = elim (if c == 37 then escape a b else none) [
  | none ↦ plain c ∷ unescape (a ∷ b ∷ xs)
  | some v ↦ v ∷ unescape xs
]

-- The fields of a query: a name goes up to the next equals sign, a value up to the next ampersand.
unfoldable pub parse : ℕ → List ℕ → List (List ℕ × List ℕ)
parse zero xs = []
parse (suc max) xs = elim (behind 61 xs) [
  | none ↦ []
  | some ys ↦
      (before 61 xs, unescape (before 38 ys))
      ∷ elim (behind 38 ys) [ none ↦ [] | some zs ↦ parse max zs ]
]

-- The bytes `xs` stand at `s`.
unfoldable pub Holds : Memory → ℕ → List ℕ → Type 0
Holds m s [] = Unit
Holds m s (x ∷ xs) = (m s ≡ x) × Holds m (s + 1) xs

-- The bytes at an address.
unfoldable pub bytes : Memory → ℕ → ℕ → List ℕ
bytes m s zero = []
bytes m s (suc n) = m s ∷ bytes m (s + 1) n
