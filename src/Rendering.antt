-- ===== src/Rendering.antt =====
-- apps/api/src/email/ticket-reply-email.ts: the email that carries a reply to the customer.
pub mod Escaping
use opsdesk.Base.{
  nat_beq, if◌then◌else◌, Text, codes, is_space, trim_text, ℕ, zero, suc, Bool, true, false, ◌&&◌,
  ◌||◌, [], ◌∷◌, ◌++◌,
}

-- `replaceAll` of one character; 34 and 39 are the codes of the two quotes
unfoldable pub replace_all : ℕ → Text → Text → Text
replace_all d t [] = []
replace_all d t (c ∷ s) =
    let rest = replace_all d t s in if nat_beq c d then t ++ rest else c ∷ rest

unfoldable pub escape_html : Text → Text
escape_html value = replace_all 39 (codes "&#039;") (
    replace_all 34 (codes "&quot;") (
      replace_all b'>' (codes "&gt;")
        (replace_all b'<' (codes "&lt;") (replace_all b'&' (codes "&amp;") value))))

-- `replace(/\r?\n/g, '<br>')`
unfoldable pub break_lines : Text → Text
break_lines [] = []
break_lines (c ∷ []) = if nat_beq c 10 then codes "<br>" else c ∷ []
break_lines (c ∷ (d ∷ s)) = elim (nat_beq c 13 && nat_beq d 10) [
  | true ↦ codes "<br>" ++ break_lines s
  | false ↦
      (let rest = break_lines (d ∷ s) in if nat_beq c 10 then codes "<br>" ++ rest else c ∷ rest)
]

-- `/^re:\s/i.test`
unfoldable pub is_reply_subject : Text → Bool
is_reply_subject (r ∷ (e ∷ (colon ∷ (s ∷ _)))) =
    (nat_beq r b'r' || nat_beq r b'R')
    && (nat_beq e b'e' || nat_beq e b'E')
    && nat_beq colon b':'
    && is_space s
is_reply_subject _ = false

unfoldable pub build_subject : Text → Text
build_subject subject =
    let trimmed = trim_text subject in
    if is_reply_subject trimmed then trimmed else codes "Re: " ++ trimmed

pub record BuildTicketReplyEmailInput : Type 0 where
  pub customer_name : Text
  pub ticket_subject : Text
  pub body : Text

pub record TicketReplyEmail : Type 0 where
  pub subject : Text
  pub text : Text
  pub html : Text

-- `— OpsDesk Support`
abbrev signature : Text
signature = 0x2014 ∷ codes " OpsDesk Support"

abbrev spaces : ℕ → Text
spaces zero = []
spaces (suc n) = b' ' ∷ spaces n

-- a line break and the indentation of the next line
abbrev newline : ℕ → Text
newline indent = 10 ∷ spaces indent

unfoldable pub build_ticket_reply_email : BuildTicketReplyEmailInput → TicketReplyEmail
build_ticket_reply_email input = record {
  subject = build_subject input.ticket_subject;
  text =
      codes "Hi "
      ++ input.customer_name
      ++ codes ","
      ++ newline 0
      ++ newline 0
      ++ input.body
      ++ newline 0
      ++ newline 0
      ++ signature;
  html =
      codes "<div>"
      ++ newline 8
      ++ codes "<p>Hi "
      ++ escape_html input.customer_name
      ++ codes ",</p>"
      ++ newline 0
      ++ newline 8
      ++ codes "<p>"
      ++ newline 10
      ++ break_lines (escape_html input.body)
      ++ newline 8
      ++ codes "</p>"
      ++ newline 0
      ++ newline 8
      ++ codes "<p>"
      ++ newline 10
      ++ signature
      ++ newline 8
      ++ codes "</p>"
      ++ newline 6
      ++ codes "</div>";
}
