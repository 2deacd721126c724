-- ===== src/Mailbox/Conversations.antt =====
-- inbox/services/conversations.py: the mailbox an owner sees a conversation in.
use operational_inbox.Common.{
  ℕ, Bool, true, false, Option, none, some, List, ◌==◌, ◌&&◌, ◌||◌, not, ◌≡◌, arith, count,
  update_where, if◌then◌else◌, is_none, is_some,
}
use operational_inbox.Mailbox.{Message, is_inbound}

pub record Conversation : Type 0 where
  pub id : ℕ
  pub domain_id : ℕ
  pub starred_at : Option ℕ
  pub archived_at : Option ℕ
  pub trashed_at : Option ℕ

pub data ConversationAction : Type 0 where
  star unstar archive trash restore : ConversationAction

-- The row after the action, whether the state changed, and whether the agent's work on the
-- conversation is interrupted.
pub record Acted : Type 0 where
  pub conversation : Conversation
  pub state_changed : Bool
  pub interrupted : Bool

abbrev pub is_unseen : Conversation → Message → Bool
is_unseen c m =
    m.domain_id == c.domain_id
    && m.conversation_id == c.id
    && is_inbound m.direction
    && is_none m.viewed_at

-- `mark_conversation_viewed`, with the number of rows it wrote.
unfoldable pub mark_viewed : (now : ℕ) → Conversation → List Message → List Message × ℕ
mark_viewed now c messages = (
  update_where (is_unseen c) (λ m. record m { viewed_at = some now }) messages,
  count (is_unseen c) messages,
)

-- Whether an action finds anything to write.
unfoldable pub is_effective : ConversationAction → Conversation → Bool
is_effective star c = is_none c.starred_at
is_effective unstar c = is_some c.starred_at
is_effective archive c = is_none c.archived_at || is_some c.trashed_at
is_effective trash c = is_none c.trashed_at || is_some c.archived_at
is_effective restore c = is_some c.archived_at || is_some c.trashed_at

unfoldable pub acted_row : (now : ℕ) → ConversationAction → Conversation → Conversation
acted_row now star c = record c { starred_at = some now }
acted_row now unstar c = record c { starred_at = none }
acted_row now archive c = record c { archived_at = some now; trashed_at = none }
acted_row now trash c = record c { trashed_at = some now; archived_at = none }
acted_row now restore c = record c { archived_at = none; trashed_at = none }

unfoldable pub apply_action :
    (now : ℕ) (agent_action : Bool) → ConversationAction → Conversation → Acted
apply_action now agent_action action c =
    if is_effective action c
    then record {
      conversation = acted_row now action c;
      state_changed = true;
      interrupted = not agent_action;
    }
    else record { conversation = c; state_changed = false; interrupted = false }

-- A conversation is in the archive or in the trash, never in both.
abbrev pub is_placed : Conversation → Bool
is_placed c = is_none c.archived_at || is_none c.trashed_at

-- Every action on a conversation that is not archived and trashed at once, by the owner or by an
-- agent, keeps it so, and running the same action again at any time changes nothing and interrupts
-- nothing.
pub action_places :
    (now later : ℕ) (agent again : Bool) (action : ConversationAction) (c : Conversation)
    → is_placed c ≡ true
    → (is_placed (apply_action now agent action c).conversation ≡ true)
      × (apply_action later again action (apply_action now agent action c).conversation ≡ record {
        conversation = (apply_action now agent action c).conversation;
        state_changed = false;
        interrupted = false;
      })
unfolding apply_action acted_row is_effective
action_places now later agent again star c placed = ground arith
action_places now later agent again unstar c placed = ground arith
action_places now later agent again archive c placed = ground arith
action_places now later agent again trash c placed = ground arith
action_places now later agent again restore c placed = ground arith
