-- ===== src/Bitmap/Tests.antt =====
-- Runs of the bitmap, and its theorems at concrete bitmaps.
use landbase.Base.{◌≡◌, refl, some, [], ◌∷◌, arith}
use landbase.Base.Bits.{byte_bit}
use landbase.Bitmap.{Bitmap, next_unsetted_bit, next_setted_bit}
use landbase.Bitmap.Bits.{IsValid}

-- Bits 0 to 7 and 9 of 12 are set.
abbrev mixed : Bitmap
mixed = record { bytes = 255 ∷ 2 ∷ []; size = 12 }

-- Bits 8 and 11 of 12 are set.
abbrev low_empty : Bitmap
low_empty = record { bytes = 0 ∷ 9 ∷ []; size = 12 }

first_clear : next_unsetted_bit mixed 0 ≡ some 8
unfolding next_unsetted_bit byte_bit
first_clear = refl

passed_by : next_setted_bit low_empty 1 ≡ some 11
unfolding next_setted_bit byte_bit
passed_by = refl

mixed-IsValid : IsValid mixed
mixed-IsValid = omega arith
