-- ===== src/Coherence/Directory/Pages.antt =====
-- What the operations of csrc/coherence/CoherenceDirectory.cpp do to each page.
use mccl.Base.{ℕ, ◌≡◌, ◌∙◌, ap, none, arith, ◌==◌, if◌then◌else◌, find, find-put, find-erase_if}
use mccl.Coherence.Directory.{
  DirectoryEntry, Directory, page_key, entry_at, update_entry, find_entry, remove_region,
}

-- A change of one page's entry is seen at that page, and at no other.
pub entry_at-update_entry :
    (r p q s : ℕ) (f : DirectoryEntry → DirectoryEntry) (d : Directory)
    → entry_at r p (update_entry q s f d)
      ≡ (if page_key q s == page_key r p then f (entry_at q s d) else entry_at r p d)
unfolding entry_at update_entry
entry_at-update_entry r p q s f d =
    ground (arith, find-put (page_key q s) (page_key r p) (f (entry_at q s d)) d)

-- `remove_region` removes the entry of every page of the region, and of no other region.
pub find_entry-remove_region :
    (r p q : ℕ) (d : Directory)
    → find_entry r p (remove_region q d) ≡ (if r == q then none else find_entry r p d)
unfolding find_entry remove_region page_key
find_entry-remove_region r p q d =
    find-erase_if _ (page_key r p) d
    ∙ ap (λ b. if b then none else find (page_key r p) d) (ground arith)
