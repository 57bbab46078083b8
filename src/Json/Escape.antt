-- ===== src/Json/Escape.antt =====
-- Escaping of JSON strings, and a reader that undoes it.
use mathlib.Core.List.{append_assoc, append-nil}
use cuddly_train.Base.{
  sym, length, length-append, ℕ, zero, suc, ◌+◌, ◌-◌, ◌*◌, ◌/◌, ◌%◌, ◌≤◌, ◌<◌, ◌≡◌, ◌∙◌, refl, ap,
  List, [], ◌∷◌, ◌++◌, arith, ltb, ◌==◌, if◌then◌else◌,
}

-- The digit of a value below 16.
abbrev pub hex : ℕ → ℕ
hex value = if ltb value 10 then b'0' + value else b'A' + (value - 10)

unfoldable pub escape_byte : ℕ → List ℕ
escape_byte c =
    if c == b'"'
    then b'\\' ∷ b'"' ∷ []
    else if c == b'\\'
    then b'\\' ∷ b'\\' ∷ []
    else if c == 8
    then b'\\' ∷ b'b' ∷ []
    else if c == 12
    then b'\\' ∷ b'f' ∷ []
    else if c == b'\n'
    then b'\\' ∷ b'n' ∷ []
    else if c == b'\r'
    then b'\\' ∷ b'r' ∷ []
    else if c == b'\t'
    then b'\\' ∷ b't' ∷ []
    else if ltb c 0x20
    then b'\\' ∷ b'u' ∷ b'0' ∷ b'0' ∷ hex (c / 16) ∷ hex (c % 16) ∷ []
    else c ∷ []

unfoldable pub escape : List ℕ → List ℕ
escape [] = []
escape (c ∷ cs) = escape_byte c ++ escape cs

-- A JSON string with its quotes.
abbrev pub quote : List ℕ → List ℕ
quote s = b'"' ∷ (escape s ++ (b'"' ∷ []))

-- The value of a hexadecimal digit, in either case.
abbrev hex_value : ℕ → ℕ
hex_value c = if ltb c b'A' then c - b'0' else if ltb c b'a' then c - b'A' + 10 else c - b'a' + 10

-- The state of a reader of a JSON string behind its opening quote. It ends in `closed`, with what
-- it has read, at the quote that is not escaped.
pub data Reader : Type 0 where
  plain escaped closed : List ℕ → Reader
  unicode : ℕ → ℕ → List ℕ → Reader
  bad : Reader

abbrev unescape_letter : ℕ → ℕ
unescape_letter c =
    if c == b'b'
    then 8
    else if c == b'f'
    then 12
    else if c == b'n'
    then b'\n'
    else if c == b'r'
    then b'\r'
    else if c == b't'
    then b'\t'
    else c

unfoldable pub read_byte : ℕ → Reader → Reader
read_byte c (plain s) =
    if c == b'"'
    then closed s
    else if c == b'\\'
    then escaped s
    else if ltb c 0x20
    then bad
    else plain (s ++ (c ∷ []))
read_byte c (escaped s) = if c == b'u' then unicode 3 0 s else plain (s ++ (unescape_letter c ∷ []))
read_byte c (unicode zero v s) = plain (s ++ ((v * 16 + hex_value c) ∷ []))
read_byte c (unicode (suc n) v s) = unicode n (v * 16 + hex_value c) s
read_byte c (closed s) = bad
read_byte c bad = bad

unfoldable pub read : List ℕ → Reader → Reader
read [] r = r
read (c ∷ cs) r = read cs (read_byte c r)

abbrev pub AreBytes : List ℕ → Type 0
AreBytes [] = Unit {0}
AreBytes (c ∷ cs) = (c < 256) × AreBytes cs

read-append : (xs ys : List ℕ) (r : Reader) → read (xs ++ ys) r ≡ read ys (read xs r)
unfolding read
read-append [] ys r = refl
read-append (x ∷ xs) ys r = read-append xs ys (read_byte x r)

hex_value-hex : (n : ℕ) → n < 16 → hex_value (hex n) ≡ n
hex_value-hex n h = ground arith

read-escape_byte :
    (c : ℕ) (s : List ℕ) → c < 256 → read (escape_byte c) (plain s) ≡ plain (s ++ (c ∷ []))
unfolding read read_byte escape_byte
read-escape_byte c s h = ground arith

read-escape : (text s : List ℕ) → AreBytes text → read (escape text) (plain s) ≡ plain (s ++ text)
unfolding escape read
read-escape [] s h = ap plain (sym (append-nil s))
read-escape (c ∷ cs) s h =
    read-append (escape_byte c) (escape cs) (plain s)
    ∙ ap (read (escape cs)) (read-escape_byte c s h.0)
    ∙ read-escape cs (s ++ (c ∷ [])) h.1
    ∙ ap plain (append_assoc s (c ∷ []) cs)

-- What is written for a text of any bytes, control bytes and quotes included, reads back as that
-- text, and the string ends exactly at its closing quote.
pub read-quote :
    (text : List ℕ) → AreBytes text → read (escape text ++ (b'"' ∷ [])) (plain []) ≡ closed text
unfolding read read_byte
read-quote text h =
    read-append (escape text) (b'"' ∷ []) (plain []) ∙ ap (read (b'"' ∷ [])) (read-escape text [] h)

-- No byte of the list is a control byte, so none is a newline.
abbrev pub HasNoControl : List ℕ → Type 0
HasNoControl [] = Unit {0}
HasNoControl (c ∷ cs) = (0x20 ≤ c) × HasNoControl cs

pub HasNoControl-append :
    (xs ys : List ℕ) → HasNoControl xs → HasNoControl ys → HasNoControl (xs ++ ys)
HasNoControl-append [] ys h k = k
HasNoControl-append (x ∷ xs) ys h k = (h.0, HasNoControl-append xs ys h.1 k)

escape_byte-HasNoControl : (c : ℕ) → HasNoControl (escape_byte c)
unfolding escape_byte
escape_byte-HasNoControl c = ground arith

-- Escaped text has no control byte, so a line holds no newline but the one at its end.
pub escape-HasNoControl : (text : List ℕ) → HasNoControl (escape text)
unfolding escape
escape-HasNoControl [] = tt
escape-HasNoControl (c ∷ cs) =
    HasNoControl-append (escape_byte c) (escape cs) (escape_byte-HasNoControl c)
      (escape-HasNoControl cs)

length-escape_byte : (c : ℕ) → length (escape_byte c) ≤ 6
unfolding escape_byte
length-escape_byte c = ground arith

pub length-escape : (text : List ℕ) → length (escape text) ≤ 6 * length text
unfolding escape
length-escape [] = omega arith
length-escape (c ∷ cs) =
    omega (arith, length-append (escape_byte c) (escape cs), length-escape_byte c, length-escape cs)

pub length-quote : (text : List ℕ) → length (quote text) ≤ 6 * length text + 2
length-quote text = omega (arith, length-append (escape text) (b'"' ∷ []), length-escape text)
