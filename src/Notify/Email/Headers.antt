-- ===== src/Notify/Email/Headers.antt =====
-- internal/notify/email.go: no text of an alert becomes a header of its mail.
use Prim.Native.Char.{Char, code}
use Prim.Native.String.{[], ◌∷◌, ◌++◌ as append}
use text.Mathlib.TextLemmas.{nil-append, cons-append}
use mathlib.Core.List.{List, [], ◌∷◌}
use threat_intel_arbiter.Common.{
  ◌≡◌, ◌∙◌, refl, ap, sym, true, false, ◌||◌, String, ◌==◌, eq_iff, ltb, eqb, if◌then◌else◌, split,
  Bool-cases, inl, inr, arith,
}
use threat_intel_arbiter.Common.Text.Parts.{lacks, lacks-append, split_free}
use threat_intel_arbiter.Model.{Alert}
use threat_intel_arbiter.Notify.Email.{
  EmailNotifier, header_safe, raw_subject, subject, header, content, message,
}

-- The lines up to the first that is empty.
unfoldable pub lines_before_blank : List String → List String
lines_before_blank [] = []
lines_before_blank (l ∷ ls) =
    let rest = lines_before_blank ls in if l == "" || l == "\r" then [] else l ∷ rest

-- How a mail program reads the header lines: a line ends at a line feed.
unfoldable pub read_headers : String → List String
unfolding split lines_before_blank
read_headers text = lines_before_blank (split text b'\n')

lacks-header_safe : (s : String) → lacks b'\n' (header_safe s) ≡ true
unfolding lacks header_safe
lacks-header_safe [] = refl
lacks-header_safe (c ∷ s) =
    elim (Bool-cases (eqb (code c) 13 || (eqb (code c) 10 || ltb (code c) 32))) [
      | inl dropped ↦ rw dropped (lacks-header_safe s)
      | inr kept ↦ rw kept (ground (arith, kept, lacks-header_safe s))
    ]

lacks-subject : (alert : Alert) → lacks b'\n' (subject alert) ≡ true
unfolding subject
lacks-subject alert = lacks-header_safe (raw_subject alert)

newline : (t : String) → append "\n" t ≡ "\n" ∷ t
newline t = cons-append "\n" "" t ∙ ap (λ u. "\n" ∷ u) (nil-append t)

split-header :
    (name value rest : String)
    → lacks b'\n' name ≡ true
    → lacks b'\n' value ≡ true
    → split (header name value rest) b'\n' ≡ append name (append value "\r") ∷ split rest b'\n'
unfolding header lacks
split-header name value rest h k =
    ap (λ t. split (append (append name (append value "\r")) t) b'\n') (newline rest)
    ∙ split_free "\n" (append name (append value "\r")) rest
        (lacks-append b'\n' name (append value "\r") h (lacks-append b'\n' value "\r" k refl))

line_not_blank :
    (c : Char) (u : String) → eqb (code c) 13 ≡ false → (c ∷ u == "" || c ∷ u == "\r") ≡ false
line_not_blank c u h = elim (Bool-cases (c ∷ u == "")) [
  | inl e ↦ let wrong : ◌≡◌ {A = String} (c ∷ u) "" = (eq_iff (c ∷ u) "").0 e in cc
  | inr filled ↦ elim (Bool-cases (c ∷ u == "\r")) [
    | inr e ↦ rw (filled, e)
    | inl e ↦
        let all : ◌≡◌ {A = String} (c ∷ u) "\r" = (eq_iff (c ∷ u) "\r").0 e in
        let here : ◌≡◌ {A = Char} c "\r" = cc in
        let wrong : true ≡ false = sym (ap (λ d. eqb (code d) 13) here) ∙ h in cc
  ]
]

read_headers-header :
    (c : Char) (name value rest : String)
    → eqb (code c) 13 ≡ false
    → lacks b'\n' (c ∷ name) ≡ true
    → lacks b'\n' value ≡ true
    → read_headers (header (c ∷ name) value rest)
      ≡ append (c ∷ name) (append value "\r") ∷ read_headers rest
unfolding read_headers lines_before_blank
read_headers-header c name value rest first h k =
    let line = cons-append c name (append value "\r") in
    rw (split-header (c ∷ name) value rest h k)
      (rw (line, line_not_blank c (append name (append value "\r")) first))

read_headers-header_blank : (rest : String) → read_headers (header "" "" rest) ≡ []
unfolding read_headers lines_before_blank lacks
read_headers-header_blank rest = rw (split-header "" "" rest refl refl) refl

-- Whatever an alert and the settings say, a mail program reads exactly the five header lines of the
-- code: the sender, the same as recipient, the subject and the two fixed ones. No text of an alert,
-- such as the title that a feed gives an event, adds a header or ends the headers.
pub read_headers-message :
    (n : EmailNotifier) (alert : Alert)
    → read_headers (message n alert)
      ≡ append "From: " (append (header_safe n.from) "\r")
        ∷ append "To: " (append (header_safe n.from) "\r")
        ∷ append "Subject: " (append (subject alert) "\r")
        ∷ "MIME-Version: 1.0\r"
        ∷ "Content-Type: text/plain; charset=\"utf-8\"\r"
        ∷ []
unfolding message lacks
read_headers-message n alert =
    let from = lacks-header_safe n.from in
    read_headers-header "F" "rom: " (header_safe n.from) _ refl refl from
    ∙ ap (λ l. append "From: " (append (header_safe n.from) "\r") ∷ l)
        (read_headers-header "T" "o: " (header_safe n.from) _ refl refl from
          ∙ ap (λ l. append "To: " (append (header_safe n.from) "\r") ∷ l)
              (read_headers-header "S" "ubject: " (subject alert) _ refl refl (lacks-subject alert)
                ∙ ap (λ l. append "Subject: " (append (subject alert) "\r") ∷ l)
                    (read_headers-header "M" "IME-Version: " "1.0" _ refl refl refl
                      ∙ ap (λ l. "MIME-Version: 1.0\r" ∷ l)
                          (read_headers-header "C" "ontent-Type: " "text/plain; charset=\"utf-8\"" _
                              refl refl refl
                            ∙ ap (λ l. "Content-Type: text/plain; charset=\"utf-8\"\r" ∷ l)
                                (read_headers-header_blank (content alert))))))
