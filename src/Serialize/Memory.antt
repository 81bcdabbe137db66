-- ===== src/Serialize/Memory.antt =====
-- src/serialize.c: what is read after something was written.
use dnbd3_fuse_lowlevel.Prelude.{
  ℕ, zero, suc, ◌+◌, ◌-◌, ◌/◌, ◌^◌, ◌≤◌, ◌<◌, ◌≡◌, ◌≢◌, List, [], ◌∷◌, ◌++◌, false, ◌==◌, get_or,
  set, get_or-set, length-set, length, length-append, arith, refl, ap, ◌∙◌, sym,
}
use native.Mathlib.Nat.{pow-suc}
use native.Mathlib.Decide.{dec_lt}
use dnbd3_fuse_lowlevel.Serialize.{read, write, word_value, word_bytes, string_end}

-- The bytes stand in the buffer from an index on.
abbrev pub Holds : List ℕ → ℕ → List ℕ → Type 0
Holds buf p bytes = (k : ℕ) → k < length bytes → get_or buf (p + k) 0 ≡ get_or bytes k 0

pub length-write : (buf : List ℕ) (p : ℕ) (bytes : List ℕ) → length (write buf p bytes) ≡ length buf
unfolding write
length-write buf p [] = refl
length-write buf p (x ∷ xs) = length-write (set buf p x) (p + 1) xs ∙ length-set {0} buf p x

-- What stands before the index is kept.
pub write-below :
    (buf : List ℕ) (p : ℕ) (bytes : List ℕ) (k : ℕ)
    → k < p
    → get_or (write buf p bytes) k 0 ≡ get_or buf k 0
unfolding write
write-below buf p [] k small = refl
write-below buf p (x ∷ xs) k small =
    write-below (set buf p x) (p + 1) xs k (omega arith)
    ∙ (get_or-set {0} buf p k x 0 ∙ ground arith)

pub write-Holds :
    (buf : List ℕ) (p : ℕ) (bytes : List ℕ)
    → p + length bytes ≤ length buf
    → Holds (write buf p bytes) p bytes
unfolding write
write-Holds buf p [] fits k small = absurd (omega arith)
write-Holds buf p (x ∷ xs) fits zero small =
    write-below (set buf p x) (p + 1) xs (p + 0) (omega arith)
    ∙ (get_or-set {0} buf p (p + 0) x 0 ∙ ground arith)
write-Holds buf p (x ∷ xs) fits (suc k) small =
    let later =
      write-Holds (set buf p x) (p + 1) xs (omega (arith, length-set {0} buf p x)) k
        (omega arith) in
    let same : p + suc k ≡ p + 1 + k = omega arith in rw same later

pub read-Holds :
    (buf : List ℕ) (p : ℕ) (bytes : List ℕ) → Holds buf p bytes → read buf p (length bytes) ≡ bytes
unfolding read
read-Holds buf p [] h = refl
read-Holds buf p (x ∷ xs) h =
    let same : p ≡ p + 0 = omega arith in
    let first : get_or buf p 0 ≡ x = ap (λ i. get_or buf i 0) same ∙ h 0 (omega arith) in
    let rest = read-Holds buf (p + 1) xs (λ k small.
      let shift : p + 1 + k ≡ p + suc k = omega arith in rw shift (h (suc k) (omega arith))) in
    rw (first, rest) refl

get_or-append_left :
    (xs ys : List ℕ) (k : ℕ) → k < length xs → get_or (xs ++ ys) k 0 ≡ get_or xs k 0
get_or-append_left [] ys k small = absurd (omega arith)
get_or-append_left (x ∷ xs) ys zero small = refl
get_or-append_left (x ∷ xs) ys (suc k) small = get_or-append_left xs ys k (omega arith)

get_or-append_right : (xs ys : List ℕ) (k : ℕ) → get_or (xs ++ ys) (length xs + k) 0 ≡ get_or ys k 0
get_or-append_right [] ys k = ap (λ i. get_or ys i 0) {y = k} (omega arith)
get_or-append_right (x ∷ xs) ys k =
    let same : suc (length xs) + k ≡ suc (length xs + k) = omega arith in
    rw same (get_or-append_right xs ys k)

pub Holds-append :
    (buf : List ℕ) (p : ℕ) (xs ys : List ℕ)
    → Holds buf p (xs ++ ys)
    → Holds buf p xs × Holds buf (p + length xs) ys
Holds-append buf p xs ys h = (
  λ k small. h k (omega (arith, length-append {0} xs ys)) ∙ get_or-append_left xs ys k small,
  λ k small.
      let same : p + length xs + k ≡ p + (length xs + k) = omega arith in
      rw same
        (h (length xs + k) (omega (arith, length-append {0} xs ys)) ∙ get_or-append_right xs ys k),
)

pub read-length : (buf : List ℕ) (p n : ℕ) → length (read buf p n) ≡ n
unfolding read
read-length buf p zero = refl
read-length buf p (suc n) = ap suc (read-length buf (p + 1) n)

pub read-get_or :
    (buf : List ℕ) (p n k : ℕ) → k < n → get_or (read buf p n) k 0 ≡ get_or buf (p + k) 0
unfolding read
read-get_or buf p zero k small = absurd (omega arith)
read-get_or buf p (suc n) zero small = let same : p + 0 ≡ p = omega arith in rw same refl
read-get_or buf p (suc n) (suc k) small =
    let same : p + suc k ≡ p + 1 + k = omega arith in
    rw same (read-get_or buf (p + 1) n k (omega arith))

pub append-Holds :
    (buf : List ℕ) (p : ℕ) (xs ys : List ℕ)
    → Holds buf p xs
    → Holds buf (p + length xs) ys
    → Holds buf p (xs ++ ys)
append-Holds buf p xs ys hx hy k small = elim (dec_lt k (length xs)) [
  | yes lt ↦ hx k lt ∙ sym (get_or-append_left xs ys k lt)
  | no ge ↦
      (let shift : p + k ≡ p + length xs + (k - length xs) = omega arith in
        let inner : length xs + (k - length xs) ≡ k = omega arith in
        rw shift (
          hy (k - length xs) (omega (arith, length-append {0} xs ys))
          ∙ sym (get_or-append_right xs ys (k - length xs))
          ∙ ap (λ i. get_or (xs ++ ys) i 0) inner))
]

-- An index inside the buffer needs no default.
pub get_or_default : (buf : List ℕ) (i d : ℕ) → i < length buf → get_or buf i d ≡ get_or buf i 0
get_or_default [] i d small = absurd (omega arith)
get_or_default (x ∷ xs) zero d small = refl
get_or_default (x ∷ xs) (suc i) d small = get_or_default xs i d (omega arith)

pub length-word_bytes : (n value : ℕ) → length (word_bytes n value) ≡ n
unfolding word_bytes
length-word_bytes zero value = refl
length-word_bytes (suc n) value = ap suc (length-word_bytes n (value / 256))

pub word_value-word_bytes :
    (n value : ℕ) → value < 256 ^ n → word_value (word_bytes n value) ≡ value
unfolding word_value word_bytes
word_value-word_bytes zero value small = omega arith
word_value-word_bytes (suc n) value small =
    let power = pow-suc 256 n in
    let rest = word_value-word_bytes n (value / 256) (omega arith) in omega arith

-- The string has no null byte.
abbrev pub NoNull : List ℕ → Type 0
NoNull [] = Unit {0}
NoNull (x ∷ xs) = (x ≢ 0) × NoNull xs

pub string_end-Holds :
    (n p : ℕ) (buf value : List ℕ)
    → Holds buf p (value ++ (0 ∷ []))
    → NoNull value
    → length value < n
    → string_end n p buf ≡ p + length value
unfolding string_end
string_end-Holds zero p buf value h ok room = absurd (omega arith)
string_end-Holds (suc n) p buf [] h ok room =
    let same : p ≡ p + 0 = omega arith in
    let first : get_or buf p 0 ≡ 0 = ap (λ i. get_or buf i 0) same ∙ h 0 (omega arith) in
    rw first (omega arith)
string_end-Holds (suc n) p buf (x ∷ xs) h ok room =
    let same : p ≡ p + 0 = omega arith in
    let first : get_or buf p 0 ≡ x = ap (λ i. get_or buf i 0) same ∙ h 0 (omega arith) in
    let more : (get_or buf p 0 == 0) ≡ false = ground (arith, first, ok.0) in
    let rest =
      string_end-Holds n (p + 1) buf xs
        (λ k small.
          let shift : p + 1 + k ≡ p + suc k = omega arith in rw shift (h (suc k) (omega arith)))
        ok.1 (omega arith) in
    rw more (rest ∙ omega arith)
