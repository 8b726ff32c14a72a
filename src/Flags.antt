-- ===== src/Flags.antt =====
-- Flags of src/libs/core/headers/ez/Flags.hpp. The underlying integer is its bits, and the flag of an
-- enumerator the bits of its value; all have the width of the underlying type.
pub mod Tested
mod Tests
use ez_cpp.Prelude.{Bool, true, false, not, ◌&&◌, ◌||◌, List, [], ◌∷◌, map, if◌then◌else◌}

abbrev pub bit_eq : Bool → Bool → Bool
bit_eq true b = b
bit_eq false b = not b

-- A bitwise operator of two integers of one width.
abbrev pub bitwise : (Bool → Bool → Bool) → List Bool → List Bool → List Bool
bitwise f [] bs = []
bitwise f (a ∷ as_) [] = []
bitwise f (a ∷ as_) (b ∷ bs) = f a b ∷ bitwise f as_ bs

-- `==` of two integers of one width.
abbrev pub same_bits : List Bool → List Bool → Bool
same_bits [] bs = true
same_bits (a ∷ as_) [] = false
same_bits (a ∷ as_) (b ∷ bs) = bit_eq a b && same_bits as_ bs

unfoldable pub flags_or : List Bool → List Bool → List Bool
flags_or = bitwise ◌||◌

unfoldable pub flags_xor : List Bool → List Bool → List Bool
flags_xor = bitwise (λ a b. not (bit_eq a b))

unfoldable pub test : List Bool → List Bool → Bool
test m_value flag = same_bits (bitwise ◌&&◌ m_value flag) flag

unfoldable pub all : List Bool → List (List Bool) → Bool
all m_value [] = true
all m_value (v ∷ vs) = test m_value v && all m_value vs

unfoldable pub any : List Bool → List (List Bool) → Bool
any m_value [] = false
any m_value (v ∷ vs) = test m_value v || any m_value vs

-- The conversion to bool: some bit is set.
unfoldable pub to_bool : List Bool → Bool
to_bool [] = false
to_bool (b ∷ bs) = b || to_bool bs

unfoldable pub clear_flag : List Bool → List Bool → List Bool
clear_flag m_value flag = bitwise ◌&&◌ m_value (map not flag)

unfoldable pub set_flag : List Bool → List Bool → Bool → List Bool
set_flag m_value flag on =
    if on then bitwise ◌||◌ m_value flag else bitwise ◌&&◌ m_value (map not flag)

unfoldable pub clear : List Bool → List Bool
clear m_value = map (λ b. false) m_value

unfoldable pub flags_eq : List Bool → List Bool → Bool
flags_eq a b = same_bits a b

unfoldable pub flags_ne : List Bool → List Bool → Bool
unfolding flags_eq
flags_ne a b = not (flags_eq a b)

-- `make_flags(first, args...)`
unfoldable pub make_flags : List Bool → List (List Bool) → List Bool
unfolding flags_or
make_flags first [] = first
make_flags first (v ∷ vs) = flags_or first (make_flags v vs)
