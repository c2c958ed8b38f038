-- ===== src/Base/Text.antt =====
-- The operations of Python's `str` that the program uses. A text is the list of its characters, and
-- `count` its `len`.
use Prim.Native.Nat.{ℕ, zero, suc, ◌+◌, ◌-◌, ◌/◌, ◌%◌, ◌≤◌}
use Prim.Native.Char.{Char, code}
use Prim.Native.String.{String, count, [] as empty, ◌∷◌ as prefix, ◌++◌ as text_append}
use Prim.Native.String.count
use Prim.Native.String.append
use mathlib.Core.Path.{◌≡◌, refl}
use mathlib.Core.Logic.{inl, inr}
use mathlib.Core.Bool.{Bool, true, false, ◌&&◌, ◌||◌}
use mathlib.Core.List.{List, [], ◌∷◌}
use native.Mathlib.Omega.{arith}
use text.Mathlib.Text.{starts_with}
use astra_agent.Base.Tests.{◌==◌, leb, ltb, if◌then◌else◌, Bool-cases}

-- The characters that `str.strip` removes.
unfoldable pub is_space : Char → Bool
is_space c =
    let n = code c in
    leb 9 n && leb n 13
    || leb 28 n && leb n 32
    || n == 133
    || n == 160
    || n == 5760
    || leb 8192 n && leb n 8202
    || n == 8232
    || n == 8233
    || n == 8239
    || n == 8287
    || n == 12288

unfoldable pub lstrip : String → String
lstrip empty = empty
lstrip (prefix c s) = let rest = lstrip s in if is_space c then rest else prefix c s

unfoldable pub rstrip : String → String
rstrip empty = empty
rstrip (prefix c s) =
    let rest = rstrip s in if is_space c && count rest == 0 then empty else prefix c rest

-- `text.strip()`
unfoldable pub strip : String → String
strip text = lstrip (rstrip text)

-- `text[:n]`, for an `n` that is not negative
unfoldable pub take_chars : ℕ → String → String
take_chars zero s = empty
take_chars (suc n) empty = empty
take_chars (suc n) (prefix c s) = prefix c (take_chars n s)

-- `text[:maximum - 3]`: a negative end counts from the end of the text.
unfoldable pub cut : ℕ → String → String
cut maximum text =
    if ltb maximum 3
    then take_chars (count text - (3 - maximum)) text
    else take_chars (maximum - 3) text

-- The characters at which `str.splitlines` ends a line.
unfoldable pub is_break : Char → Bool
is_break c =
    let n = code c in
    leb 10 n && leb n 13 || leb 28 n && leb n 30 || n == 133 || n == 8232 || n == 8233

-- A carriage return before a line feed is part of one break.
unfoldable pub is_crlf : Char → String → Bool
is_crlf c empty = false
is_crlf c (prefix d s) = code c == 13 && code d == 10

push : Char → List String → List String
push c [] = prefix c empty ∷ []
push c (line ∷ lines) = prefix c line ∷ lines

-- `text.splitlines()`
unfoldable pub splitlines : String → List String
unfolding push
splitlines empty = []
splitlines (prefix c s) =
    let rest = splitlines s in
    if is_break c then if is_crlf c s then rest else empty ∷ rest else push c rest

-- `text.split(separator)`, for a separator of one character, given by its code
unfoldable pub split : ℕ → String → List String
unfolding push
split separator empty = empty ∷ []
split separator (prefix c s) =
    let rest = split separator s in if code c == separator then empty ∷ rest else push c rest

-- `separator.join(texts)`
unfoldable pub join : String → List String → String
join separator [] = empty
join separator (text ∷ []) = text
join separator (text ∷ next ∷ texts) =
    text_append text (text_append separator (join separator (next ∷ texts)))

-- `a <= b`, which compares the codes of the characters
unfoldable pub text_leb : String → String → Bool
text_leb empty t = true
text_leb (prefix c s) empty = false
text_leb (prefix c s) (prefix d t) = ltb (code c) (code d) || code c == code d && text_leb s t

-- `query in s`
unfoldable pub contains_text : String → String → Bool
contains_text query empty = starts_with empty query
contains_text query (prefix c s) =
    let rest = contains_text query s in starts_with (prefix c s) query || rest

abbrev pub drop_chars : ℕ → String → String
drop_chars zero s = s
drop_chars (suc n) empty = empty
drop_chars (suc n) (prefix c s) = drop_chars n s

abbrev pub digit : ℕ → String
digit n = take_chars 1 (drop_chars n "0123456789")

decimal_digits : ℕ → ℕ → String
decimal_digits zero n = empty
decimal_digits (suc fuel) n = elim (ltb n 10) [
  | true ↦ digit n
  | false ↦ text_append (decimal_digits fuel (n / 10)) (digit (n % 10))
]

-- `str(n)`: a number has at most as many digits as it counts, and one more.
unfoldable pub decimal : ℕ → String
unfolding decimal_digits
decimal n = decimal_digits (suc n) n

pub text_leb_total : (s t : String) → text_leb s t ≡ false → text_leb t s ≡ true
unfolding text_leb
text_leb_total empty t h = cc
text_leb_total (prefix c s) empty h = refl
text_leb_total (prefix c s) (prefix d t) h = ground (arith, text_leb_total s t)

pub text_leb_trans :
    (s t u : String) → text_leb s t ≡ true → text_leb t u ≡ true → text_leb s u ≡ true
unfolding text_leb
text_leb_trans empty t u h k = refl
text_leb_trans (prefix c s) empty u h k = cc
text_leb_trans (prefix c s) (prefix d t) empty h k = cc
text_leb_trans (prefix c s) (prefix d t) (prefix e u) h k = ground (arith, text_leb_trans s t u)

pub text_leb_self : (s : String) → text_leb s s ≡ true
unfolding text_leb
text_leb_self empty = refl
text_leb_self (prefix c s) = ground (arith, text_leb_self s)

pub count-take_chars : (n : ℕ) (s : String) → count (take_chars n s) ≤ n
unfolding take_chars
count-take_chars zero s = rw count.nil (omega arith)
count-take_chars (suc n) empty = rw count.nil (omega arith)
count-take_chars (suc n) (prefix c s) =
    rw (count.cons c (take_chars n s)) (omega (arith, count-take_chars n s))

pub count-rstrip : (s : String) → count (rstrip s) ≤ count s
unfolding rstrip
count-rstrip empty = omega arith
count-rstrip (prefix c s) = elim (Bool-cases (is_space c && count (rstrip s) == 0)) [
  | inl gone ↦ rw (gone, count.nil) (omega arith)
  | inr kept ↦ rw (kept, count.cons c (rstrip s), count.cons c s) (omega (arith, count-rstrip s))
]

pub count-append : (s t : String) → count (text_append s t) ≡ count s + count t
count-append empty t = rw (append.nil t, count.nil) (omega arith)
count-append (prefix c s) t =
    rw (append.cons c s t, count.cons c (text_append s t), count.cons c s)
      (omega (arith, count-append s t))
