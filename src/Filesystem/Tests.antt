-- ===== src/Filesystem/Tests.antt =====
-- Runs of proj04/src on a device of two blocks.
use cs.Prelude.{◌≡◌, refl, List, [], ◌∷◌, ◌++◌, arith, take, drop, replicate, ok}
use cs.Filesystem.{Bytes, populate_dir_entry_list}
use cs.Filesystem.Blocks.{block_of}
use cs.Filesystem.Directory.{Entries, populate_dir_entry_list-Entries}

-- Two entries of 300 and 3796 bytes.
abbrev directory : Bytes
directory =
    (5 ∷ 0 ∷ 0 ∷ 0 ∷ 44 ∷ 1 ∷ replicate 294 1) ++ (6 ∷ 0 ∷ 0 ∷ 0 ∷ 212 ∷ 14 ∷ replicate 3790 2)

abbrev device : Bytes
device = replicate 4096 0 ++ directory

abbrev empty_buffer : Bytes
empty_buffer = replicate 4096 0

abbrev root_inode : Bytes
root_inode = replicate 40 0 ++ (1 ∷ replicate 87 0)

abbrev found_entries : List Bytes
found_entries = take 264 (drop 0 (block_of device 1)) ∷ take 264 (drop 300 (block_of device 1)) ∷ []

found-Entries : Entries (block_of device 1) 0 found_entries
found-Entries =
    Entries.entry (omega arith) (omega arith) (omega arith) (omega arith)
      (Entries.entry (omega arith) (omega arith) (omega arith) (omega arith) Entries.done)

populate_dir_entry_list-Entries_example :
    populate_dir_entry_list 3 device root_inode empty_buffer ≡ ok (found_entries, block_of device 0)
populate_dir_entry_list-Entries_example =
    populate_dir_entry_list-Entries 3 device root_inode empty_buffer found_entries refl
      (omega arith) (omega arith) found-Entries refl (omega arith)
