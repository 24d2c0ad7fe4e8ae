-- ===== src/Coherence/Protocol/Frame.antt =====
-- What a message handled by csrc/coherence/CoherenceProtocol.cpp keeps, also when the handler throws.
use mccl.Base.{
  ℕ, ◌<◌, ◌≡◌, ◌≢◌, ◌⊎◌, refl, ◌∙◌, inl, inr, Bool, true, false, arith, ◌==◌, if◌then◌else◌, ==_ne,
}
use mccl.Coherence.Directory.{uncached, DirectoryEntry, Directory, add_sharer, page_key, entry_at}
use mccl.Coherence.Directory.Sharers.{mask_with-lt, mask_with-pos}
use mccl.Coherence.Directory.Pages.{entry_at-update_entry}
use mccl.Coherence.Node.{Message, page_index, Node}
use mccl.Coherence.Protocol.{update, handle_message, bump_epoch, share_if_uncached, grant_to}
use mccl.Coherence.Protocol.Keeping.{Keeps, directory-Keeps}

-- A message changes nothing in the directory but the entry of the page that it names, whatever the
-- message, its sender and its outcome. The condition is that the other page has another key.
pub handle_message_frame :
    (delivers : ℕ → Bool) (msg : Message) (sender r p : ℕ) (n : Node)
    → page_key msg.page_addr.region_id (page_index msg.page_addr.offset) ≢ page_key r p
    → entry_at r p (handle_message delivers msg sender n).1.directory ≡ entry_at r p n.directory
unfolding update
handle_message_frame delivers msg sender r p n other =
    directory-Keeps (λ d. entry_at r p d ≡ entry_at r p n.directory) delivers msg sender
      (kept (λ e. e)) (kept (λ e. bump_epoch (share_if_uncached (add_sharer sender e))))
      (kept (grant_to sender)) (kept (λ e. bump_epoch (record e { state = uncached }))) n refl
  where
    kept :
        (f : DirectoryEntry → DirectoryEntry) (m : Node)
        → entry_at r p m.directory ≡ entry_at r p n.directory
        → entry_at r p (update msg f m).1.directory ≡ entry_at r p n.directory
    kept f m h =
        entry_at-update_entry r p msg.page_addr.region_id (page_index msg.page_addr.offset) f
          m.directory
        ∙ rw (==_ne _ _ other) h

-- A page that is shared or exclusive has a sharer.
pub record PageIsValid (e : DirectoryEntry) : Type 0 where
  pub small : e.sharers < 256
  pub held : (e.state ≡ uncached) ⊎ (0 < e.sharers)

abbrev pub DirectoryIsValid : Directory → Type 0
DirectoryIsValid d = (r p : ℕ) → PageIsValid (entry_at r p d)

update-IsValid :
    (msg : Message) (f : DirectoryEntry → DirectoryEntry)
    → ((e : DirectoryEntry) → PageIsValid e → PageIsValid (f e))
    → Keeps (λ n. DirectoryIsValid n.directory) (update msg f)
unfolding update
update-IsValid msg f h n v r p =
    let q : ℕ = msg.page_addr.region_id in
    let s : ℕ = page_index msg.page_addr.offset in
    rw (entry_at-update_entry r p q s f n.directory) (go (page_key q s == page_key r p))
  where
    go :
        (b : Bool)
        → PageIsValid (
            if b
            then f (entry_at msg.page_addr.region_id (page_index msg.page_addr.offset) n.directory)
            else entry_at r p n.directory)
    go true = h _ (v _ _)
    go false = v r p

shared-IsValid :
    (sender : ℕ)
    → sender < 8
    → (e : DirectoryEntry) → PageIsValid e
    → PageIsValid (bump_epoch (share_if_uncached (add_sharer sender e)))
shared-IsValid sender h e v = record {
  small = mask_with-lt e.sharers sender;
  held = inr (mask_with-pos e.sharers sender v.small h);
}

-- Every message keeps the directory valid, from a sender below 8 and whatever its outcome: a page that
-- is shared or exclusive has a sharer.
pub handle_message-IsValid :
    (delivers : ℕ → Bool) (msg : Message) (sender : ℕ) (n : Node)
    → sender < 8
    → DirectoryIsValid n.directory
    → DirectoryIsValid (handle_message delivers msg sender n).1.directory
handle_message-IsValid delivers msg sender n h =
    directory-Keeps DirectoryIsValid delivers msg sender (update-IsValid msg (λ e. e) (λ e v. v))
      (update-IsValid msg _ (shared-IsValid sender h))
      (update-IsValid msg (grant_to sender) (λ e v. record {
        small = mask_with-lt 0 sender;
        held = inr (mask_with-pos 0 sender (omega arith) h);
      }))
      (update-IsValid msg _ (λ e v. record { small = v.small; held = inl refl })) n
