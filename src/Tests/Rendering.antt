-- ===== src/Tests/Rendering.antt =====
-- A reply as an email.
use opsdesk.Base.{All, Text, codes, is_space, drop_while, trim_text, ◌≡◌, refl, false, ◌∷◌, ◌++◌}
use opsdesk.Rendering.{
  replace_all, escape_html, break_lines, is_reply_subject, build_subject, build_ticket_reply_email,
  BuildTicketReplyEmailInput,
}
use opsdesk.Rendering.Escaping.{is_markup, read_html, escape_html-roundtrip}

abbrev script : Text
script = codes "<b>&amp;</b> it's"

escaped_script : escape_html script ≡ codes "&lt;b&gt;&amp;amp;&lt;/b&gt; it&#039;s"
unfolding escape_html replace_all
escaped_script = refl

escape_html-roundtrip_example :
    All (λ c. is_markup c ≡ false) (escape_html script)
    × (read_html 0 (escape_html script) ≡ script)
escape_html-roundtrip_example = escape_html-roundtrip script

abbrev sent_reply : BuildTicketReplyEmailInput
sent_reply = record {
  customer_name = codes "Kim";
  ticket_subject = codes " RE: login ";
  body = codes "a" ++ (13 ∷ (10 ∷ codes "b"));
}

reply_kept : (build_ticket_reply_email sent_reply).subject ≡ codes "RE: login"
unfolding build_ticket_reply_email build_subject is_reply_subject trim_text drop_while is_space
reply_kept = refl

reply_added : build_subject (codes "login") ≡ codes "Re: login"
unfolding build_subject is_reply_subject trim_text drop_while is_space
reply_added = refl

broken : break_lines sent_reply.body ≡ codes "a<br>b"
unfolding break_lines
broken = refl
