-- ===== src/Corpus/MessageRef.antt =====
-- `messageRefText` of internal/corpus/clusters.go: the reference that a cluster shows of a message.
use aha.Prelude.{
  Option, some, arith, ◌≡◌, Result, ok, ◌>>=◌, >>=-eq-ok, ok_inj, subst, sym, ap, ◌∙◌,
}
use aha.Text.{Bytes, IsText}
use aha.Model.Identity.{IdentityError, SessionKey, EntryId, parse_session_key, new_entry_id}
use aha.Model.Ref.{Ref, message, format_ref, parse_ref}
use aha.Model.Identity.Parse.{parse_session_key_iff}
use aha.Model.Ref.RoundTrip.{parse-format_ref}

-- The outer `none` never occurs: `FormatRef` panics on a reference that is not valid.
unfoldable pub message_ref_text : Bytes → Bytes → Result IdentityError (Option Bytes)
message_ref_text session entry = do
  sk ← parse_session_key session
  eid ← new_entry_id entry
  ok (format_ref (message sk eid))

new_entry_id-value : (s : Bytes) {e : EntryId} → new_entry_id s ≡ ok e → e.value ≡ s
unfolding new_entry_id
new_entry_id-value s h = ground arith

same_message :
    {session entry : Bytes} {sk : SessionKey} {eid : EntryId}
    → sk.value ≡ session
    → eid.value ≡ entry
    → ◌≡◌ {A = Ref}
        (message sk eid)
        (message (record { value = session }) (record { value = entry }))
same_message {session = session} {eid = eid} p q =
    ap (λ (k : SessionKey). message k eid) (ap {B = SessionKey} (λ s. record { value = s }) p)
    ∙ ap (λ (i : EntryId). message (record { value = session }) i)
        (ap {B = EntryId} (λ s. record { value = s }) q)

-- For an entry identifier that is a text, `messageRefText` never panics, and `ParseRef` takes the text
-- that it returns to the message with the given session key and entry identifier.
pub parse-message_ref_text :
    (session entry : Bytes) {o : Option Bytes}
    → IsText entry
    → message_ref_text session entry ≡ ok o
    → (t : Bytes) × (o ≡ some t)
      × (parse_ref t ≡ ok (message (record { value = session }) (record { value = entry })))
unfolding message_ref_text
parse-message_ref_text session entry b h =
    let (sk, p, h1) = >>=-eq-ok (parse_session_key session) _ h in
    let (eid, q, h2) = >>=-eq-ok (new_entry_id entry) _ h1 in
    let vk = ((parse_session_key_iff session sk).0 p).0 in
    let ve = new_entry_id-value entry q in
    let (t, f, g) = parse-format_ref (message sk eid) (
      subst (λ s. parse_session_key s ≡ ok sk) (sym vk) p,
      subst (λ s. new_entry_id s ≡ ok eid) (sym ve) q,
      subst IsText (sym ve) b,
    ) in
    (t, sym (ok_inj h2) ∙ f, g ∙ ap ok (same_message vk ve))
