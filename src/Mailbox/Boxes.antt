-- ===== src/Mailbox/Boxes.antt =====
-- src/daemon/mailbox.ts: the mailbox directories, `daemon.json`, the counts and the capacity tests.
use herdr_tools.Base.{
  ℕ, ◌+◌, ◌*◌, Bool, true, ◌||◌, String, ◌==◌, List, [], ◌∷◌, Option, none, some, any, find, length,
  leb, ltb, byte_length,
}
use herdr_tools.Base.Dict.{Dict, get, put}
use herdr_tools.Mailbox.Event.{Account, GapEvent, MailboxError}

-- `unread/` and `acked/`: each event file by its identifier, with its data.
pub record Box : Type 0 where
  pub unread : Dict String
  pub acked : Dict String

-- The mailboxes by manager session key, and the degradation fields of `daemon.json`.
pub record State : Type 0 where
  pub boxes : Dict Box
  pub degraded : Bool
  pub unpersisted : Dict Account
  pub pending_gap : Dict GapEvent

pub data Result {ℓ} (A : Type ℓ) : Type ℓ where
  ok : A → Result A
  err : MailboxError → Result A

-- How far the write of an event file comes before a fault of the file system.
pub data EventWrite : Type 0 where
  smooth stage_fault link_fault sync_fault : EventWrite

-- What the environment answers during one operation: namespace and directories are trusted, the
-- flocks are granted, `daemon.json` can be written, also first to hold a gap, the clock, a random identifier, the event write,
-- and whether the rename of an event that is there succeeds.
pub record Io : Type 0 where
  pub trusted : Bool
  pub locked : Bool
  pub status_ok : Bool
  pub hold_ok : Bool
  pub at : String
  pub minted : String
  pub write : EventWrite
  pub renames : String → Bool

abbrev pub max_files : ℕ
max_files = 500

abbrev pub max_bytes : ℕ
max_bytes = 8 * 1024 * 1024

abbrev pub max_global : ℕ
max_global = 5000

abbrev pub max_acked : ℕ
max_acked = 1000

abbrev pub no_mail : Box
no_mail = record { unread = []; acked = [] }

-- The directories of a manager, created on demand.
unfoldable pub ensure_box : String → State → State
ensure_box k s = elim (get k s.boxes) [
  | none ↦ record s { boxes = put k no_mail s.boxes }
  | some b ↦ s
]

abbrev pub box_or_empty : Option Box → Box
box_or_empty none = no_mail
box_or_empty (some b) = b

abbrev pub box : String → State → Box
box k s = box_or_empty (get k s.boxes)

unfoldable pub total_bytes : Dict String → ℕ
total_bytes [] = 0
total_bytes ((n, content) ∷ d) = byte_length content + total_bytes d

pub record Count : Type 0 where
  pub key : String
  pub files : ℕ
  pub bytes : ℕ

pub record Counts : Type 0 where
  pub per_mailbox : List Count
  pub global : ℕ

unfoldable pub count_boxes : Dict Box → List Count
unfolding total_bytes
count_boxes [] = []
count_boxes ((k, b) ∷ d) =
    record { key = k; files = length b.unread; bytes = total_bytes b.unread } ∷ count_boxes d

unfoldable pub sum_files : List Count → ℕ
sum_files [] = 0
sum_files (c ∷ cs) = c.files + sum_files cs

-- `scanCounts`: `unread/` only.
unfoldable pub scan_counts : Dict Box → Counts
unfolding count_boxes sum_files
scan_counts d = record { per_mailbox = count_boxes d; global = sum_files (count_boxes d) }

abbrev pub full : Count → Bool
full c = leb max_files c.files || leb max_bytes c.bytes

-- `capState`: true for "degraded".
unfoldable pub cap_state : Counts → Bool
cap_state c = any full c.per_mailbox || leb max_global c.global

abbrev pub over : Count → ℕ → ℕ → Bool
over mine global add =
    ltb max_files (mine.files + 1)
    || (ltb max_bytes (mine.bytes + add) || ltb max_global (global + 1))

-- `atCap`. The entry is there in every admission section, which creates the mailbox first; without
-- one the source fails and nothing is written, as at the cap.
unfoldable pub at_cap : Counts → String → ℕ → Bool
at_cap c k add = elim (find (λ (e : Count). e.key == k) c.per_mailbox) [
  | none ↦ true
  | some mine ↦ over mine c.global add
]

pub data Written : Type 0 where
  written collision fault : Written

-- `writeEventFile`: stage, link without replacing, sync. A sync fault comes after the link.
unfoldable pub link_event : EventWrite → String → String → Dict String → Written × Dict String
link_event stage_fault id body d = (fault, d)
link_event link_fault id body d = (fault, d)
link_event smooth id body d = elim (get id d) [
  | none ↦ (written, put id body d)
  | some old ↦ (collision, d)
]
link_event sync_fault id body d = elim (get id d) [
  | none ↦ (fault, put id body d)
  | some old ↦ (collision, d)
]
