-- ===== src/Router.antt =====
-- memRouter/include: the pages that the memory router handles and the messages it receives.
pub mod Collect
pub mod Held
pub mod Bounds
pub mod Messages
pub mod Arrival
pub mod Delivery
pub mod Threshold
pub mod Selection
pub mod Retained
pub mod Send
pub mod Recycle
pub mod Worker
mod Tests
use etmem.Base.{ℕ, List, ◌^◌}
use etmem.Base.Int.{ℤ}

-- struct migrate_page
pub record Page : Type 0 where
  pub addr : ℕ
  pub length : ℕ
  pub visit_count : ℤ
  pub numanode : ℤ

pub record VmaAddrWithCount : Type 0 where
  pub start_addr : ℕ
  pub vma_len : ℕ
  pub count : ℤ

-- enum MEMDCD_MESSAGE_STATUS
pub data MessageStatus : Type 0 where
  memdcd_send_start memdcd_send_process memdcd_send_end : MessageStatus

-- struct swap_vma_with_count. `vma_addrs` is by index: the array has MAX_VMA_NUM entries, and what a read at
-- a higher index gives is not known; Router/Collect records such a read as a fault.
pub record SwapVmaWithCount : Type 0 where
  pub length : ℕ
  pub total_length : ℕ
  pub status : MessageStatus
  pub vma_addrs : ℕ → VmaAddrWithCount

-- uint64_t
abbrev pub word : ℕ
word = 2 ^ 64
