-- ===== src/Hanafs/Entries.antt =====
-- kernel/filesystem/hanafs.cpp: the loops over the entries, and what they make of an entry.
pub mod Lookup
use hana_core.Prelude.{
  ℕ, zero, suc, List, [], ◌∷◌, ◌++◌, ◌+◌, Option, none, some, Bool, true, false, not, ltb, ◌==◌,
  ◌&&◌, ◌||◌, if◌then◌else◌, length, take,
}
use hana_core.Prelude.Int.{ℤ, pos, negsuc}
use hana_core.Prelude.Text.{eq_text, behind}
use hana_core.Hanafs.Path.{Resolved, resolve}
use hana_core.Hanafs.Image.{HanaEntry, Ata, Hana, entry_size, root_entry, hanafs_persist_to_ata}

unfoldable pub find_entry : List HanaEntry → List ℕ → Option HanaEntry
find_entry [] path = none
find_entry (e ∷ es) path = elim (eq_text e.path path) [ true ↦ some e | false ↦ find_entry es path ]

-- The loop that takes the first entry of a path out.
unfoldable pub remove_existing : List ℕ → List HanaEntry → List HanaEntry
remove_existing path [] = []
remove_existing path (e ∷ es) = elim (eq_text e.path path) [
  | true ↦ es
  | false ↦ e ∷ remove_existing path es
]

-- "/hcsh_history".
abbrev pub history : List ℕ
history =
    b'/' ∷ b'h' ∷ b'c' ∷ b's' ∷ b'h' ∷ b'_' ∷ b'h' ∷ b'i' ∷ b's' ∷ b't' ∷ b'o' ∷ b'r' ∷ b'y' ∷ []

abbrev pub is_legacy : Option ℕ → Bool
is_legacy none = true
is_legacy (some drive) = false

-- `drv <= 0`.
abbrev pub is_legacy_or_zero : Option ℕ → Bool
is_legacy_or_zero none = true
is_legacy_or_zero (some drive) = drive == 0

abbrev pub file_entry : List ℕ → List ℕ → HanaEntry
file_entry path bytes = record { path = path; is_dir = false; bytes = bytes; len = length bytes }

abbrev pub dir_entry : List ℕ → HanaEntry
dir_entry path = record { path = path; is_dir = true; bytes = []; len = 0 }

-- A path that leads from a directory to an immediate child: its name.
unfoldable pub has_slash : List ℕ → Bool
has_slash [] = false
has_slash (c ∷ cs) = (c == b'/') || has_slash cs

abbrev pub skip_slash : List ℕ → List ℕ
skip_slash [] = []
skip_slash (c ∷ cs) = if c == b'/' then cs else c ∷ cs

abbrev pub is_empty_text : List ℕ → Bool
is_empty_text [] = true
is_empty_text (c ∷ cs) = false

-- What `hanafs_list_dir` makes of the text behind the directory's path.
abbrev pub child_name : List ℕ → Option (List ℕ)
child_name rest =
    if is_empty_text rest || has_slash (skip_slash rest) then none else some (skip_slash rest)

abbrev pub candidate : Resolved → HanaEntry → Option (List ℕ)
candidate r e = elim (behind r.ipath e.path) [
  | some rest ↦ some rest
  | none ↦ if is_legacy r.drv then behind r.pbuf e.path else none
]

abbrev pub listed : Resolved → HanaEntry → Option (List ℕ)
listed r e = elim (candidate r e) [ none ↦ none | some rest ↦ child_name rest ]

unfoldable pub names_in : Resolved → List HanaEntry → List (List ℕ)
unfolding behind has_slash
names_in r [] = []
names_in r (e ∷ es) = elim (listed r e) [ none ↦ names_in r es | some name ↦ name ∷ names_in r es ]

-- A directory that is being read: its path and the entries that are still to be looked at.
pub record HanaDirObj : Type 0 where
  pub ipath : List ℕ
  pub next : List HanaEntry

pub record Dirent : Type 0 where
  pub d_name : List ℕ
  pub d_type : ℕ

pub record HanaStat : Type 0 where
  pub st_size : ℕ
  pub st_mode : ℕ

-- An entry below a path.
abbrev pub is_child : List ℕ → HanaEntry → Bool
is_child path e = elim (behind path e.path) [
  | none ↦ false
  | some [] ↦ false
  | some (c ∷ cs) ↦ c == b'/'
]

-- One step of the loop of `hanafs_remove_dir`: whether the entry keeps the directory in use.
abbrev pub keeps_dir : Resolved → HanaEntry → Bool
keeps_dir r e =
    if eq_text e.path r.ipath
    then false
    else if is_child r.ipath e
    then true
    else if is_legacy_or_zero r.drv && eq_text e.path r.pbuf
    then false
    else is_legacy_or_zero r.drv && is_child r.pbuf e

unfoldable pub has_children : Resolved → List HanaEntry → Bool
unfolding behind eq_text
has_children r [] = false
has_children r (e ∷ es) = keeps_dir r e || has_children r es

-- The entry that `hanafs_unlink` takes out, and what stays.
unfoldable pub unlinked : Resolved → List HanaEntry → Option (List HanaEntry)
unlinked r [] = none
unlinked r (e ∷ es) = elim (eq_text e.path r.ipath || (is_legacy r.drv && eq_text e.path r.pbuf)) [
  | true ↦ some es
  | false ↦ elim (unlinked r es) [ none ↦ none | some rest ↦ some (e ∷ rest) ]
]

abbrev pub is_there : Option HanaEntry → Bool
is_there none = false
is_there (some e) = true

abbrev pub stat_of : HanaEntry → HanaStat
stat_of e = record { st_size = e.len; st_mode = if e.is_dir then 0x4000 else 0x8000 }

abbrev pub or_legacy : Option HanaEntry → Option HanaEntry → Option HanaEntry
or_legacy none other = other
or_legacy (some e) other = some e

-- "/bin", "/dev", "/proc" and "/home".
abbrev pub top_dirs : List (List ℕ)
top_dirs =
    (b'/' ∷ b'b' ∷ b'i' ∷ b'n' ∷ [])
    ∷ (b'/' ∷ b'd' ∷ b'e' ∷ b'v' ∷ [])
    ∷ (b'/' ∷ b'p' ∷ b'r' ∷ b'o' ∷ b'c' ∷ [])
    ∷ (b'/' ∷ b'h' ∷ b'o' ∷ b'm' ∷ b'e' ∷ [])
    ∷ []
