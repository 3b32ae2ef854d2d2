-- ===== src/Client/Queries.antt =====
-- A text that is escaped and put between quotes, against a reader of quoted texts.
use gdrive_turbo_copy.Prelude.{
  ◌≡◌, ◌∙◌, refl, sym, ap, String, ◌<>◌, Bool, true, false, ◌||◌, Option, none, some, ◌==◌,
  number_eq, Bool-cases, inl, inr, arith, if◌then◌else◌,
}
use native.Mathlib.Decide.{ℕ_discrete}
use Prim.Native.String.append
use Prim.Native.Char.{Char, code}
use gdrive_turbo_copy.Client.{escape}

abbrev keep_char : Char → Option (String × String) → Option (String × String)
keep_char c none = none
keep_char c (some (text, rest)) = some (String.◌∷◌ c text, rest)

-- How Drive reads the rest of a quoted text: up to the next quote that no backslash stands before, a
-- backslash making the next character an ordinary one. With it, what comes after the quote.
unfoldable pub read_quoted : Bool → String → Option (String × String)
read_quoted after_backslash String.[] = none
read_quoted true (String.◌∷◌ c s) = keep_char c (read_quoted false s)
read_quoted false (String.◌∷◌ c s) =
    let plain = read_quoted false s in
    let escaped = read_quoted true s in
    if code c == 39 then some ("", s) else if code c == 92 then escaped else keep_char c plain

-- One character in front.
single : (c : Char) (t : String) → (String.◌∷◌ c "" <> t) ≡ String.◌∷◌ c t
single c t = append.cons c "" t ∙ ap (String.◌∷◌ c) (append.nil t)

read_quote : (rest : String) → read_quoted false ("'" <> rest) ≡ some ("", rest)
unfolding read_quoted ℕ_discrete
read_quote rest = ap (read_quoted false) (single "'" rest) ∙ refl

-- A text with a backslash and a character in front, put before another one.
put_behind :
    (c : Char) (s t : String) → (("\\" <> String.◌∷◌ c s) <> t) ≡ ("\\" <> String.◌∷◌ c (s <> t))
put_behind c s t =
    ap (λ x. x <> t) (single "\\" (String.◌∷◌ c s))
    ∙ append.cons "\\" (String.◌∷◌ c s) t
    ∙ ap (String.◌∷◌ "\\") (append.cons c s t)
    ∙ sym (single "\\" (String.◌∷◌ c (s <> t)))

-- A backslash in front of a character.
read_escaped :
    (c : Char) (s : String)
    → read_quoted false ("\\" <> String.◌∷◌ c s) ≡ keep_char c (read_quoted false s)
unfolding read_quoted ℕ_discrete
read_escaped c s = ap (read_quoted false) (single "\\" (String.◌∷◌ c s)) ∙ refl

read_plain :
    (c : Char) (s : String)
    → (code c == 92 || code c == 39) ≡ false
    → read_quoted false (String.◌∷◌ c s) ≡ keep_char c (read_quoted false s)
unfolding read_quoted
read_plain c s h = ground (arith, h)

-- What `_escape` makes of a text, between quotes in a query, is read as that text, and the query goes
-- on behind the closing quote: no text of a user ends its quotes early.
pub read_quoted-escape :
    (s rest : String) → read_quoted false (escape s <> "'" <> rest) ≡ some (s, rest)
unfolding read_quoted escape
read_quoted-escape String.[] rest =
    ap (read_quoted false) (append.nil ("'" <> rest)) ∙ read_quote rest
read_quoted-escape (String.◌∷◌ c s) rest =
    let tail = "'" <> rest in
    let later = ap (keep_char c) (read_quoted-escape s rest) in
    elim (Bool-cases (code c == 92 || code c == 39)) [
      | inl special ↦ rw special (
          ap (read_quoted false) (put_behind c (escape s) tail)
          ∙ read_escaped c (escape s <> tail)
          ∙ later)
      | inr plain ↦ rw plain (
          ap (read_quoted false) (append.cons c (escape s) tail)
          ∙ read_plain c (escape s <> tail) plain
          ∙ later)
    ]
