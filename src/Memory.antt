-- ===== src/Memory.antt =====
-- src/Public/KerbecsMemory.h: the page size, and rounding up to an alignment in `size_t`.
pub mod Align
pub mod Pages
use kerbecs.Common.{ℕ, ◌+◌, ◌*◌, ◌^◌, bit_and, add_word, sub_word, mul_word, not_word}

abbrev pub kibi_byte : ℕ
kibi_byte = 1024

abbrev pub gibi_byte : ℕ
gibi_byte = 1024 * 1024 * 1024

abbrev pub page_size : ℕ
page_size = 4 * kibi_byte

unfoldable pub align_to_page : ℕ → ℕ
align_to_page bytes =
    bit_and (sub_word (add_word bytes page_size) 1) (not_word (sub_word page_size 1))

unfoldable pub align_up : ℕ → ℕ → ℕ
align_up value align = bit_and (sub_word (add_word value align) 1) (not_word (sub_word align 1))

unfoldable pub align_up_ptr : ℕ → ℕ → ℕ
align_up_ptr value align = bit_and (sub_word (add_word value align) 1) (not_word (sub_word align 1))

-- `Memory::PageState`, what the system says of a page.
pub data PageState : Type 0 where
  free reserved committed unknown : PageState
