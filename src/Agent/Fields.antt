-- ===== src/Agent/Fields.antt =====
-- The fields of a header and of a registration in the bytes that csrc/agent/Agent.cpp reads.
use mathlib.Core.List.{append_assoc}
use mccl.Base.{
  ℕ, ◌+◌, ◌<◌, ◌^◌, ◌≡◌, sym, ◌∙◌, ap, ap₂, List, ◌++◌, length, length-append, take, drop, le_bytes,
  le_value, length-le_bytes, le_value-le_bytes,
}
use mccl.Collective.Messages.{received, recv_bytes, recv_bytes-append, take-append, drop-append}
use mccl.Agent.{header, command_code}

module _ (code status len : ℕ) where
  pub header_length : length (header code status len) ≡ 8
  unfolding header
  header_length =
      length-append (le_bytes 2 code) (le_bytes 2 status ++ le_bytes 4 len)
      ∙ ap₂ ◌+◌ (length-le_bytes 2 code) (
          length-append (le_bytes 2 status) (le_bytes 4 len)
          ∙ ap₂ ◌+◌ (length-le_bytes 2 status) (length-le_bytes 4 len))

  pub header_code : code < 2 ^ 16 → command_code (header code status len) ≡ code
  unfolding header
  header_code h =
      let tail : List ℕ = le_bytes 2 status ++ le_bytes 4 len in
      ap (λ n. le_value (take n (le_bytes 2 code ++ tail))) (sym (length-le_bytes 2 code))
      ∙ ap le_value (take-append (le_bytes 2 code) tail)
      ∙ le_value-le_bytes 2 code h

pub recv_exact :
    (n : ℕ) (bs rest : List ℕ) → length bs ≡ n → recv_bytes n (bs ++ rest) ≡ received bs rest
recv_exact n bs rest e = ap (λ m. recv_bytes m (bs ++ rest)) (sym e) ∙ recv_bytes-append bs rest

module _ (addr len flags : ℕ) where
  abbrev pub register_bytes : List ℕ
  register_bytes = le_bytes 8 addr ++ (le_bytes 8 len ++ le_bytes 1 flags)

  pub register_length : length register_bytes ≡ 17
  register_length =
      length-append (le_bytes 8 addr) (le_bytes 8 len ++ le_bytes 1 flags)
      ∙ ap₂ ◌+◌ (length-le_bytes 8 addr) (
          length-append (le_bytes 8 len) (le_bytes 1 flags)
          ∙ ap₂ ◌+◌ (length-le_bytes 8 len) (length-le_bytes 1 flags))

  pub first_part : take 8 register_bytes ≡ le_bytes 8 addr
  first_part =
      ap (λ n. take n register_bytes) (sym (length-le_bytes 8 addr))
      ∙ take-append (le_bytes 8 addr) (le_bytes 8 len ++ le_bytes 1 flags)

  behind_first : drop 8 register_bytes ≡ le_bytes 8 len ++ le_bytes 1 flags
  behind_first =
      ap (λ n. drop n register_bytes) (sym (length-le_bytes 8 addr))
      ∙ drop-append (le_bytes 8 addr) (le_bytes 8 len ++ le_bytes 1 flags)

  pub second_part : take 8 (drop 8 register_bytes) ≡ le_bytes 8 len
  second_part =
      ap (take 8) behind_first
      ∙ ap (λ n. take n (le_bytes 8 len ++ le_bytes 1 flags)) (sym (length-le_bytes 8 len))
      ∙ take-append (le_bytes 8 len) (le_bytes 1 flags)

  pub third_part : drop 16 register_bytes ≡ le_bytes 1 flags
  third_part =
      let front : List ℕ = le_bytes 8 addr ++ le_bytes 8 len in
      let sixteen : length front ≡ 16 =
        length-append (le_bytes 8 addr) (le_bytes 8 len)
        ∙ ap₂ ◌+◌ (length-le_bytes 8 addr) (length-le_bytes 8 len) in
      ap (drop 16) (sym (append_assoc (le_bytes 8 addr) (le_bytes 8 len) (le_bytes 1 flags)))
      ∙ ap (λ n. drop n (front ++ le_bytes 1 flags)) (sym sixteen)
      ∙ drop-append front (le_bytes 1 flags)
