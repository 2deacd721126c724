-- ===== src/Mailbox/SpamReview.antt =====
-- inbox/services/spam_review.py: marking a message as not spam, and taking that back.
use operational_inbox.Common.{
  subst, sym, ◌∙◌, count, ℕ, Bool, true, false, Option, none, some, String, List, [], ◌∷◌, ◌==◌,
  ◌&&◌, ◌||◌, not, ◌≡◌, refl, arith, update_where, ap, if◌then◌else◌, is_none, is_some,
}
use operational_inbox.Mailbox.{Message, is_inbound, is_pass, has_auth_failure, can_mark_not_spam}

pub data NoticeStatus : Type 0 where
  pending sent failed resolved : NoticeStatus

-- The security notifications of messages: `kind="security_verdict"`, by the message that their
-- dedupe key names.
pub record SecurityNotice : Type 0 where
  pub domain_id : ℕ
  pub message_id : ℕ
  pub status : NoticeStatus
  pub error_code : String

pub data ReviewAction : Type 0 where
  not_spam undo : ReviewAction

-- A `ValidationError`, no change, or the message and the notifications.
pub data Reviewed : Type 0 where
  invalid unchanged : Reviewed
  reviewed : Message → List SecurityNotice → Reviewed

abbrev pub is_notice_of : Message → SecurityNotice → Bool
is_notice_of m n = n.domain_id == m.domain_id && n.message_id == m.id

abbrev pub is_unsent : NoticeStatus → Bool
is_unsent pending = true
is_unsent failed = true
is_unsent _ = false

abbrev pub is_resolved : NoticeStatus → Bool
is_resolved resolved = true
is_resolved _ = false

unfoldable pub is_doubtful : Message → Bool
is_doubtful m = has_auth_failure m || (not (is_pass m.spam_verdict) && is_none m.not_spam_at)

-- The notifications that a review had resolved are due again.
abbrev pub reopen : Message → List SecurityNotice → List SecurityNotice
reopen m notices =
    update_where (λ n. is_notice_of m n && is_resolved n.status)
      (λ n. record n { status = pending }) notices

unfoldable pub settle_notices : ReviewAction → Message → List SecurityNotice → List SecurityNotice
settle_notices action m notices =
    if not m.is_suspicious && not m.is_quarantined
    then update_where (λ n. is_notice_of m n && is_unsent n.status)
        (λ n. record n { status = resolved; error_code = "" }) notices
    else reopen action m notices
  where
    reopen : ReviewAction → Message → List SecurityNotice → List SecurityNotice
    reopen not_spam m notices = notices
    reopen undo m notices =
        update_where (λ n. is_notice_of m n && is_resolved n.status)
          (λ n. record n { status = pending }) notices

-- The message with its mark, and the flag that follows from it.
unfoldable pub marked : Option ℕ → Message → Message
marked at m = let m' = record m { not_spam_at = at } in record m' { is_suspicious = is_doubtful m' }

unfoldable pub apply_spam_review :
    (now : ℕ) → ReviewAction → Message → List SecurityNotice → Reviewed
apply_spam_review now not_spam m notices =
    if not (is_inbound m.direction)
    then invalid
    else if is_some m.not_spam_at
    then unchanged
    else if not (can_mark_not_spam m)
    then invalid
    else reviewed (marked (some now) m) (settle_notices not_spam (marked (some now) m) notices)
apply_spam_review now undo m notices =
    if not (is_inbound m.direction)
    then invalid
    else if is_none m.not_spam_at
    then unchanged
    else reviewed (marked none m) (settle_notices undo (marked none m) notices)

auth_unmarked :
    (at : Option ℕ) (m : Message) (s : Bool)
    → has_auth_failure (record m { not_spam_at = at; is_suspicious = s }) ≡ has_auth_failure m
unfolding has_auth_failure
auth_unmarked at m s = refl

abbrev pub is_sent : SecurityNotice → Bool
is_sent n = elim n.status [ sent ↦ true | _ ↦ false ]

sent_kept :
    (test : SecurityNotice → Bool) (change : SecurityNotice → SecurityNotice)
    (ns : List SecurityNotice)
    → ((n : SecurityNotice) → test n ≡ true → is_sent n ≡ false)
    → ((n : SecurityNotice) → is_sent (change n) ≡ false)
    → count is_sent (update_where test change ns) ≡ count is_sent ns
sent_kept test change [] a b = refl
sent_kept test change (n ∷ ns) a b = ground (arith, a n, b n, sent_kept test change ns a b)

resolved_sent :
    (m : Message) (ns : List SecurityNotice)
    → count is_sent (
        update_where
          (λ n. is_notice_of m n && is_unsent n.status)
          (λ n. record n { status = resolved; error_code = "" })
          ns)
      ≡ count is_sent ns
resolved_sent m ns =
    sent_kept (λ n. is_notice_of m n && is_unsent n.status)
      (λ n. record n { status = resolved; error_code = "" }) ns (λ n h. ground arith) (λ n. refl)

reopened_sent :
    (m : Message) (ns : List SecurityNotice) → count is_sent (reopen m ns) ≡ count is_sent ns
reopened_sent m ns =
    sent_kept (λ n. is_notice_of m n && is_resolved n.status) (λ n. record n { status = pending })
      ns (λ n h. ground arith) (λ n. refl)

settle_sent :
    (action : ReviewAction) (m : Message) (ns : List SecurityNotice)
    → count is_sent (settle_notices action m ns) ≡ count is_sent ns
unfolding settle_notices
settle_sent not_spam m ns = ground (arith, resolved_sent m ns)
settle_sent undo m ns = ground (arith, resolved_sent m ns, reopened_sent m ns)

marked_back :
    (at : Option ℕ) (m : Message)
    → m.not_spam_at ≡ none
    → m.is_suspicious ≡ is_doubtful m
    → marked none (marked at m) ≡ m
unfolding marked is_doubtful has_auth_failure
marked_back at m e f = ground (arith)

-- What a first review tells of the message and gives back.
reviewed_once :
    (now : ℕ) (m m1 : Message) (ns ns1 : List SecurityNotice)
    → apply_spam_review now not_spam m ns ≡ reviewed m1 ns1
    → (is_inbound m.direction ≡ true)
      × (m.not_spam_at ≡ none)
      × (m1 ≡ marked (some now) m)
      × (ns1 ≡ settle_notices not_spam m1 ns)
unfolding apply_spam_review
reviewed_once now m m1 ns ns1 e = ground arith

undone :
    (now later : ℕ) (m : Message) (ns : List SecurityNotice)
    → is_inbound m.direction ≡ true
    → m.not_spam_at ≡ none
    → m.is_suspicious ≡ is_doubtful m
    → apply_spam_review later undo (marked (some now) m) ns ≡ reviewed m (settle_notices undo m ns)
unfolding apply_spam_review marked
undone now later m ns inward clear flag =
    still (is_inbound m.direction) (marked none (marked (some now) m)) inward
    ∙ ap (λ x. reviewed x (settle_notices undo x ns)) (marked_back (some now) m clear flag)
  where
    still :
        (b : Bool) (x : Message)
        → b ≡ true
        → (if not b then invalid else reviewed x (settle_notices undo x ns))
          ≡ reviewed x (settle_notices undo x ns)
    still b x e = ground arith

-- Undoing a review gives back the message exactly, when its suspicion flag agreed with its verdicts
-- before, and over both steps the number of security notifications that count as sent stays the same.
pub review_round_trip :
    (now later : ℕ) (m m1 : Message) (ns ns1 : List SecurityNotice)
    → m.is_suspicious ≡ is_doubtful m
    → apply_spam_review now not_spam m ns ≡ reviewed m1 ns1
    → (apply_spam_review later undo m1 ns1 ≡ reviewed m (settle_notices undo m ns1))
      × (count is_sent (settle_notices undo m ns1) ≡ count is_sent ns)
review_round_trip now later m m1 ns ns1 flag e =
    let (inward, clear, same, settled) = reviewed_once now m m1 ns ns1 e in
    (
      subst (λ x. apply_spam_review later undo x ns1 ≡ reviewed m (settle_notices undo m ns1))
          (sym same) (undone now later m ns1 inward clear flag),
      settle_sent undo m ns1 ∙ ap (count is_sent) settled ∙ settle_sent not_spam m1 ns,
    )
