-- ===== src/Metrics/Labels.antt =====
-- `labelValue` and `escapeLabel` of internal/metrics/metrics.go, and a reader of what they write.
use mathlib.Core.List.{append_assoc}
use go_order_lab.Prelude.{
  ℕ, ◌≡◌, refl, ap, ◌∙◌, Bool, true, false, Option, none, some, [], ◌∷◌, ◌++◌, Text, ◌==◌,
  if◌then◌else◌, arith,
}

-- `strings.ReplaceAll` of a text of one byte.
unfoldable pub replace_all : ℕ → Text → Text → Text
replace_all old new [] = []
replace_all old new (c ∷ s) = (if c == old then new else c ∷ []) ++ replace_all old new s

abbrev pub backslash : ℕ
backslash = b'\\'

abbrev pub quote : ℕ
quote = 34

abbrev pub line_feed : ℕ
line_feed = 10

unfoldable pub escape_label : Text → Text
unfolding replace_all
escape_label value = replace_all quote (backslash ∷ quote ∷ []) (
    replace_all line_feed (backslash ∷ b'n' ∷ [])
      (replace_all backslash (backslash ∷ backslash ∷ []) value))

unfoldable pub label_value : Text → Text
unfolding escape_label
label_value value = quote ∷ (escape_label value ++ quote ∷ [])

-- What one byte becomes.
hide : ℕ → Text
hide c =
    if c == backslash
    then backslash ∷ backslash ∷ []
    else if c == line_feed
    then backslash ∷ b'n' ∷ []
    else if c == quote
    then backslash ∷ quote ∷ []
    else c ∷ []

hidden : Text → Text
hidden [] = []
hidden (c ∷ s) = hide c ++ hidden s

replace_all-append :
    (old : ℕ) (new s t : Text)
    → replace_all old new (s ++ t) ≡ replace_all old new s ++ replace_all old new t
unfolding replace_all
replace_all-append old new [] t = refl
replace_all-append old new (c ∷ s) t = simp (replace_all-append old new s t, append_assoc)

replace_hide : (c : ℕ) → escape_label (c ∷ []) ≡ hide c
unfolding escape_label hide
replace_hide c = ground arith

escape_label-append : (s t : Text) → escape_label (s ++ t) ≡ escape_label s ++ escape_label t
unfolding escape_label
escape_label-append s t = simp replace_all-append

escape_nil : escape_label [] ≡ []
unfolding escape_label
escape_nil = refl

-- The three passes together replace each byte by itself.
escape_label-hidden : (s : Text) → escape_label s ≡ hidden s
unfolding hidden
escape_label-hidden [] = escape_nil
escape_label-hidden (c ∷ s) =
    escape_label-append (c ∷ []) s
    ∙ ap (λ t. t ++ escape_label s) (replace_hide c)
    ∙ ap (λ t. hide c ++ t) (escape_label-hidden s)

-- A reader of the exposition format behind the opening quote: the label up to the closing quote, and
-- what follows. The flag says that a backslash stands before.
abbrev prepend : ℕ → Option (Text × Text) → Option (Text × Text)
prepend c none = none
prepend c (some (s, rest)) = some (c ∷ s, rest)

unfoldable pub read_label : Bool → Text → Option (Text × Text)
read_label e [] = none
read_label true (c ∷ s) = prepend (if c == b'n' then line_feed else c) (read_label false s)
read_label false (c ∷ s) =
    let escaped = read_label true s in
    let plain = prepend c (read_label false s) in
    if c == quote then some ([], s) else if c == backslash then escaped else plain

read_hide : (c : ℕ) (s : Text) → read_label false (hide c ++ s) ≡ prepend c (read_label false s)
unfolding read_label hide
read_hide c s = ground arith

read_end : (rest : Text) → read_label false (quote ∷ rest) ≡ some ([], rest)
unfolding read_label
read_end rest = refl

read_hidden : (s rest : Text) → read_label false (hidden s ++ quote ∷ rest) ≡ some (s, rest)
unfolding hidden
read_hidden [] rest = read_end rest
read_hidden (c ∷ s) rest =
    ap (read_label false) (append_assoc (hide c) (hidden s) (quote ∷ rest))
    ∙ read_hide c (hidden s ++ quote ∷ rest)
    ∙ ap (prepend c) (read_hidden s rest)

-- The same, with the opening quote.
unfoldable pub read_quoted : Text → Option (Text × Text)
unfolding read_label
read_quoted [] = none
read_quoted (c ∷ s) = if c == quote then read_label false s else none

-- A label's value is read back from the page whole, whatever bytes it has and whatever follows it.
pub read_quoted-label_value :
    (value rest : Text) → read_quoted (label_value value ++ rest) ≡ some (value, rest)
unfolding read_quoted label_value
read_quoted-label_value value rest =
    ap (read_label false) (
      append_assoc (escape_label value) (quote ∷ []) rest
      ∙ ap (λ t. t ++ quote ∷ rest) (escape_label-hidden value))
    ∙ read_hidden value rest
