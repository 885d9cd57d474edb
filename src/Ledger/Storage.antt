-- ===== src/Ledger/Storage.antt =====
-- Opening and persisting the ledger of mobile/src/tiktok-ledger.ts, and crashes between its writes.
use one_autojs.Base.{◌≡◌, refl, ◌⊎◌, inl, inr, Option, none, some, arith}
use one_autojs.Ledger.{
  TikTokLedgerState, empty_state, FileContent, missing, unreadable, holds, Disk, TikTokLedger,
}

-- `readState`
abbrev pub read_state : FileContent → Option TikTokLedgerState
read_state (holds s) = some s
read_state _ = none

-- The right side of `??`.
abbrev pub or_else : Option TikTokLedgerState → TikTokLedgerState → TikTokLedgerState
or_else (some s) t = s
or_else none t = t

-- What the constructor loads: the file, else its backup, else an empty ledger.
unfoldable pub loaded : Disk → TikTokLedgerState
loaded d = or_else (read_state d.file) (or_else (read_state d.backup) empty_state)

-- The constructor.
unfoldable pub open_ledger : Disk → TikTokLedger
unfolding loaded
open_ledger d = record { state = loaded d; disk = d }

-- The first write of `persist`: a readable file becomes the backup.
abbrev pub backed_up : FileContent → FileContent → FileContent
backed_up (holds s) backup = holds s
backed_up _ backup = backup

unfoldable pub write_backup : Disk → Disk
write_backup d = record d { backup = backed_up d.file d.backup }

-- The second write of `persist`, an atomic replacement.
unfoldable pub write_file : TikTokLedgerState → Disk → Disk
write_file s d = record d { file = holds s }

unfoldable pub persist : TikTokLedger → TikTokLedger
unfolding write_backup write_file
persist l = record l { disk = write_file l.state (write_backup l.disk) }

-- The files as a crash during `persist` can leave them: each write happens whole or not at all.
pub data Crash (l : TikTokLedger) : Disk → Type 0 where
  before : Crash l l.disk
  between : Crash l (write_backup l.disk)
  after : Crash l (persist l).disk

-- Wherever a crash stops `persist`, opening the ledger gives the state last persisted or the new
-- one, never a mixture and never an older one.
pub Crash-loaded :
    (l : TikTokLedger) {d : Disk} → Crash l d → (loaded d ≡ loaded l.disk) ⊎ (loaded d ≡ l.state)
unfolding persist loaded
Crash-loaded l before = inl refl
Crash-loaded l between = inl (write_backup_lem l.disk.file l.disk.backup)
  where
    write_backup_lem :
        (f b : FileContent)
        → or_else (read_state f) (or_else (read_state (backed_up f b)) empty_state)
          ≡ or_else (read_state f) (or_else (read_state b) empty_state)
    write_backup_lem (holds s) b = refl
    write_backup_lem missing b = refl
    write_backup_lem unreadable b = refl
Crash-loaded l after = inr refl

-- Should the file be damaged later, its backup still gives the state before the last write.
pub persist-backup :
    (l : TikTokLedger) (s : TikTokLedgerState)
    → l.disk.file ≡ holds s
    → loaded (record { file = unreadable; backup = (persist l).disk.backup }) ≡ s
unfolding persist loaded
persist-backup l s h = ground arith

pub loaded-persist : (l : TikTokLedger) → loaded (persist l).disk ≡ l.state
unfolding persist loaded
loaded-persist l = refl
