-- ===== src/Common/Words.antt =====
-- `size_t` and `uint64_t` arithmetic: a word is a number below 2 ^ 64, and the wrap is written out.
use Prim.Native.Nat.{ℕ, ◌+◌, ◌-◌, ◌*◌, ◌/◌, ◌%◌, ◌^◌}

abbrev pub word_mod : ℕ
word_mod = 2 ^ 64

abbrev pub word : ℕ → ℕ
word n = n % 2 ^ 64

abbrev pub add_word : ℕ → ℕ → ℕ
add_word a b = (a + b) % 2 ^ 64

-- 2 ^ 64 is added first, since `-` stops at 0.
abbrev pub sub_word : ℕ → ℕ → ℕ
sub_word a b = (a + 2 ^ 64 - b) % 2 ^ 64

abbrev pub mul_word : ℕ → ℕ → ℕ
mul_word a b = (a * b) % 2 ^ 64

-- `~a`
abbrev pub not_word : ℕ → ℕ
not_word a = 2 ^ 64 - 1 - a

infixl 75 ◌>>>◌
abbrev pub ◌>>>◌ : ℕ → ℕ → ℕ
x >>> k = x / 2 ^ k
