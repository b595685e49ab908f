-- ===== src/Transaction/FileSystem.antt =====
-- What a transaction sees of the file system: what stands at a path. The inside of a directory goes
-- with it and is not represented, nor are the parent directories that are made on the way.
use core_pip.Prelude.{
  ℕ, Bool, true, false, not, ◌&&◌, Option, none, some, List, Text, ◌=?◌, text_ord, is_some, take,
  if◌then◌else◌,
}

abbrev pub Bytes : Type 0
Bytes = List ℕ

-- What `os.stat` finds behind a link: nothing, something that is no file, or a file.
pub data LinkTarget : Type 0 where
  dangling elsewhere : LinkTarget
  regular : Bytes → LinkTarget

-- A file with its contents and mode, a directory, or a link, which may be relative.
pub data Node : Type 0 where
  file : Bytes → ℕ → Node
  directory : Node
  link : Bool → LinkTarget → Node

abbrev pub Disk : Type 0
Disk = Text → Option Node

unfoldable pub put : Text → Option Node → Disk → Disk
put p o d q = if q =? p then o else d q

-- `open(path, "rb").read()`, where `path` leads to a file
abbrev pub contents_at : Option Node → Option Bytes
contents_at none = none
contents_at (some (file c m)) = some c
contents_at (some directory) = none
contents_at (some (link relative (regular c))) = some c
contents_at (some (link relative _)) = none

-- `os.path.isfile`
abbrev pub is_file : Option Node → Bool
is_file o = is_some (contents_at o)

-- `os.stat` finds something.
abbrev pub is_visible : Node → Bool
is_visible (link relative dangling) = false
is_visible _ = true

-- `os.path.exists` of what was moved to the temporary directory, from where a relative link leads
-- nowhere
abbrev pub is_visible_backup : Option Node → Bool
is_visible_backup none = false
is_visible_backup (some (link relative target)) = not relative && is_visible (link relative target)
is_visible_backup (some n) = true

-- A file of which so many bytes were written
abbrev pub cut_short : ℕ → Node → Node
cut_short k (file c m) = file (take k c) m
cut_short k n = n

-- `os.chmod`; what a link leads to is not represented.
abbrev pub with_mode : ℕ → Option Node → Option Node
with_mode m (some (file c old)) = some (file c m)
with_mode m o = o
