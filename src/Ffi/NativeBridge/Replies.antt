-- ===== src/Ffi/NativeBridge/Replies.antt =====
-- What Java reads in the answer of a call that failed.
use Prim.Native.Char.{Char, code}
use Prim.Native.String.{String, [], ◌∷◌, ◌++◌}
use Prim.Native.String.append.{cons, nil}
use zao_p2p.Prelude.{
  ◌≡◌, refl, ◌≤◌, ◌≢◌, ◌∙◌, ap, Bool, true, false, Option, none, some, ltb, ◌==◌, if◌then◌else◌,
  arith, Bool-cases, inl, inr, str_eq,
}
use zao_p2p.Ffi.NativeBridge.{apostrophe, replace_quotes, error_json}

abbrev quote_mark : Char
quote_mark = "\""

abbrev newline : Char
newline = "\n"

abbrev tab : Char
tab = "\t"

abbrev return : Char
return = "\r"

abbrev backspace : Char
backspace = "\u{8}"

abbrev form_feed : Char
form_feed = "\u{c}"

-- What an escape of one letter stands for in JSON; `\u` is left out.
unescape : Char → Option Char
unescape c =
    if code c == 34
    then some c
    else if code c == 92
    then some c
    else if code c == 47
    then some c
    else if code c == 98
    then some backspace
    else if code c == 102
    then some form_feed
    else if code c == 110
    then some newline
    else if code c == 114
    then some return
    else if code c == 116
    then some tab
    else none

then_char : Option Char → Option (String × String) → Option (String × String)
then_char none found = none
then_char (some c) none = none
then_char (some c) (some (s, rest)) = some (c ∷ s, rest)

-- The characters of a JSON string, from behind its opening quote, and the text after its closing
-- one; `escaped` tells whether a backslash stands before the text.
unfoldable pub read_string : Bool → String → Option (String × String)
unfolding unescape then_char
read_string escaped [] = none
read_string true (c ∷ s) = then_char (unescape c) (read_string false s)
read_string false (c ∷ s) =
    let escape = read_string true s in
    let next = then_char (some c) (read_string false s) in
    if code c == 34
    then some ([], s)
    else if code c == 92
    then escape
    else if ltb (code c) 32
    then none
    else next

-- What stands behind a prefix.
after : String → String → Option String
after [] t = some t
after (c ∷ s) [] = none
after (c ∷ s) (d ∷ t) = let rest = after s t in if code c == code d then rest else none

closed : Option (String × String) → Option String
closed none = none
closed (some (s, rest)) = if str_eq rest "}" then some s else none

read_from : Option String → Option String
read_from none = none
read_from (some t) = closed (read_string false t)

-- The value of the field `error`, of a text that is an object with that field alone.
unfoldable pub read_error : String → Option String
unfolding after read_string closed read_from
read_error t = read_from (after "{\"error\":\"" t)

-- No backslash and no control character, as JSON allows it inside a string.
abbrev pub IsPlain : String → Type 0
IsPlain [] = Unit
IsPlain (c ∷ s) = (code c ≢ 92) × ((32 ≤ code c) × IsPlain s)

after-append : (s t : String) → after s (s ++ t) ≡ some t
unfolding after
after-append [] t = rw (nil t) refl
after-append (c ∷ s) t = rw (cons c s t) (ground (arith, after-append s t))

plain_char :
    (c : Char) (s : String)
    → code c ≢ 34
    → code c ≢ 92
    → 32 ≤ code c
    → read_string false (c ∷ s) ≡ then_char (some c) (read_string false s)
unfolding read_string
plain_char c s quote slash control = ground (arith, quote, slash, control)

module _ (rest : String) where
  read_string-replace_quotes :
      (s : String)
      → IsPlain s
      → read_string false (replace_quotes s ++ (quote_mark ∷ rest)) ≡ some (replace_quotes s, rest)
  unfolding read_string replace_quotes then_char
  read_string-replace_quotes [] plain = rw (nil (quote_mark ∷ rest)) refl
  read_string-replace_quotes (c ∷ s) (slash, (control, plain)) = elim (Bool-cases (code c == 34)) [
    | inl quote ↦
        rw
          (
            quote,
            cons apostrophe (replace_quotes s) (quote_mark ∷ rest),
            plain_char apostrophe (replace_quotes s ++ (quote_mark ∷ rest)) (omega arith)
                (omega arith) (omega arith),
            read_string-replace_quotes s plain,
          )
          refl
    | inr other ↦
        rw
          (
            other,
            cons c (replace_quotes s) (quote_mark ∷ rest),
            plain_char c (replace_quotes s ++ (quote_mark ∷ rest)) (ground (arith, other)) slash
                control,
            read_string-replace_quotes s plain,
          )
          refl
  ]

-- A failure is an object whose field `error` is the text of the error with its quotes replaced, if
-- that text holds no backslash and no control character.
pub read_error-error_json :
    (e : String) → IsPlain e → read_error (error_json e) ≡ some (replace_quotes e)
unfolding read_error error_json closed read_from
read_error-error_json e plain =
    ap read_from (after-append "{\"error\":\"" (replace_quotes e ++ "\"}"))
    ∙ rw (read_string-replace_quotes "}" e plain) refl

abbrev backslash : Char
backslash = "\\"

read_string-backslash :
    (s : String)
    → IsPlain s
    → read_string false (replace_quotes (s ++ "\\") ++ (quote_mark ∷ "}")) ≡ none
unfolding read_string replace_quotes then_char unescape
read_string-backslash [] plain = refl
read_string-backslash (c ∷ s) (slash, (control, plain)) = elim (Bool-cases (code c == 34)) [
  | inl quote ↦
      rw
        (
          cons c s "\\",
          replace_quotes,
          quote,
          cons apostrophe (replace_quotes (s ++ "\\")) (quote_mark ∷ "}"),
          plain_char apostrophe (replace_quotes (s ++ "\\") ++ (quote_mark ∷ "}")) (omega arith)
              (omega arith) (omega arith),
          read_string-backslash s plain,
        )
        refl
  | inr other ↦
      rw
        (
          cons c s "\\",
          replace_quotes,
          other,
          cons c (replace_quotes (s ++ "\\")) (quote_mark ∷ "}"),
          plain_char c (replace_quotes (s ++ "\\") ++ (quote_mark ∷ "}")) (ground (arith, other))
              slash control,
          read_string-backslash s plain,
        )
        refl
]

-- A failure is no such object if the text of the error ends in a backslash, with no other one and
-- no control character before it: the backslash escapes the closing quote.
pub read_error-error_json_backslash :
    (s : String) → IsPlain s → read_error (error_json (s ++ "\\")) ≡ none
unfolding read_error error_json closed read_from
read_error-error_json_backslash s plain =
    ap read_from (after-append "{\"error\":\"" (replace_quotes (s ++ "\\") ++ "\"}"))
    ∙ rw (read_string-backslash s plain) refl
