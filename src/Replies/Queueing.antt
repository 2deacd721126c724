-- ===== src/Replies/Queueing.antt =====
-- What `_outbound_for_revision` of inbox/services/drafts.py queues for a revision, and the saving of a
-- message.
use Prim.Native.Char.{code}
use Prim.Native.String.{◌++◌ as str_append}
use text.Mathlib.Text.{◌==◌ as str_eq}
use operational_inbox.Common.{
  ℕ, Option, none, some, String, [], ◌∷◌, ◌++◌, ◌==◌, ◌&&◌, find, if◌then◌else◌, is_none,
}
use operational_inbox.Accounts.{Domain}
use operational_inbox.Drafts.{ReplyDraft, Revision, is_compose}
use operational_inbox.Database.{domain_of}
use operational_inbox.Outbound.Message.{OutboundMessage, queued, AuthorizationMode}
use operational_inbox.Outbound.Quota.{require_outbound_capacity}
use operational_inbox.Outbound.Submission.Authorization.{user_of}
use operational_inbox.Replies.Desk.{
  Desk, missing_row, no_context, no_routing_recipient, malformed_address, outbound_not_ready, quota,
  Outcome, rejected, finished, check, Outside, message_of, Inbound, Recipient, RouteAddress,
}
use operational_inbox.Replies.Checks.{outbound_error, is_blank}

-- `address.rsplit("@", 1)`, if there is an `@`.
abbrev pub split_address : String → Option (String × String)
split_address String.[] = none
split_address (String.◌∷◌ c s) = elim (split_address s) [
  | some (local, domain) ↦ some (String.◌∷◌ c local, domain)
  | none ↦ if code c == b'@' then some ("", s) else none
]

abbrev pub append : String → String → String
append = str_append

-- Where a reply is sent from: the local part and the domain.
unfoldable pub sender_of : ReplyDraft → (routing_address : String) → Desk → Option (String × Domain)
sender_of draft routing_address desk = elim (split_address routing_address) [
  | none ↦ none
  | some (local, host) ↦
      elim (find (λ (d : Domain). d.id == draft.domain_id && str_eq d.hostname host)
        desk.db.domains) [
          | some d ↦ some (local, d)
          | none ↦
              elim (find
                (λ (r : RouteAddress).
                  r.domain_id == draft.domain_id && str_eq r.address routing_address)
                desk.routes) [
                  | none ↦ none
                  | some r ↦ elim (domain_of r.domain_id desk.db) [
                    | none ↦ none
                    | some d ↦ some ("reply", d)
                  ]
                ]
        ]
]

-- The row that is queued for a revision.
unfoldable pub new_outbound :
    (id now : ℕ) (rfc_message_id from_address to_address : String)
    → AuthorizationMode
    → ReplyDraft
    → Revision
    → OutboundMessage
new_outbound id now rfc_message_id from_address to_address mode draft r = record {
  id = id;
  domain_id = draft.domain_id;
  conversation_id = draft.conversation_id;
  revision_id = r.id;
  agent_run = none;
  parent = none;
  attempt_number = 1;
  idempotency_key = none;
  authorization_mode = mode;
  status = queued;
  from_address = from_address;
  to_address = to_address;
  subject = r.subject;
  body_text = r.body_text;
  content_hash = r.content_hash;
  rfc_message_id = rfc_message_id;
  provider_message_id = "";
  accepted_at = none;
  delivered_at = none;
  failed_at = none;
  error_code = "";
  error_message = "";
  created_at = now;
  updated_at = now;
}

-- `require_outbound_capacity(domain)`: the control rows that it leaves, or its error.
unfoldable pub with_capacity :
    Outside → (now : ℕ) → Domain → Desk → (Desk → Outcome OutboundMessage) → Outcome OutboundMessage
with_capacity o now d desk rest = elim (user_of d.owner_id desk.db) [
  | none ↦ rejected missing_row
  | some owner ↦
      let (controls, error) =
        require_outbound_capacity o.calendar o.settings desk.db.profiles desk.db.domains
          desk.db.outbound owner d now desk.db.controls in
      elim error [
        | some e ↦ rejected (quota e)
        | none ↦ rest (record desk { db = record desk.db { controls = controls } })
      ]
]

-- `full_clean` and `save` of a new message.
unfoldable pub queue :
    Outside → ReplyDraft → Revision → OutboundMessage → Desk → Outcome OutboundMessage
queue o draft r m desk = elim (outbound_error o draft r desk.db.approvals desk.db.outbound m) [
  | some e ↦ rejected e
  | none ↦
      finished m (record desk { db = record desk.db { outbound = desk.db.outbound ++ m ∷ [] } })
]

-- What a new message is called: its ID and its Message-ID.
pub record NewSend : Type 0 where
  pub id : ℕ
  pub rfc_message_id : String

abbrev pub reply_address : Inbound → String
reply_address m = if is_blank m.reply_to_address then m.from_address else m.reply_to_address

-- `_outbound_for_revision`
unfoldable pub outbound_for_revision :
    Outside
    → NewSend
    → (now : ℕ) → AuthorizationMode
    → ReplyDraft
    → Revision
    → Desk
    → Outcome OutboundMessage
outbound_for_revision o n now mode draft r desk = elim draft.context_message [
  | none ↦ rejected no_context
  | some k ↦ if is_compose draft.kind then rejected no_context else elim (message_of k desk) [
    | none ↦ rejected missing_row
    | some context ↦
        elim (find (λ (x : Recipient). x.message_id == context.id && x.is_routing_recipient)
          desk.recipients) [
            | none ↦ rejected no_routing_recipient
            | some routing ↦
                if is_none (split_address routing.address)
                then rejected malformed_address
                else elim (sender_of draft routing.address desk) [
                  | none ↦ rejected outbound_not_ready
                  | some (local, sending) ↦
                      check sending.outbound_ready outbound_not_ready
                        (elim (domain_of draft.domain_id desk.db) [
                          | none ↦ rejected missing_row
                          | some d ↦ with_capacity o now d desk (
                              queue o draft r (
                                new_outbound n.id now n.rfc_message_id
                                  (append local (append "@" sending.hostname))
                                  (reply_address context) mode draft r))
                        ])
                ]
          ]
  ]
]
