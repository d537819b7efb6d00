-- ===== src/Base/Letters.antt =====
-- Case mapping of Go's `unicode`, onto the ASCII letters.
use Prim.Native.Char.{Char}
use Prim.Native.Nat.{ℕ}
use mathlib.Core.List.{[], ◌∷◌}
use vk_agregator.Base.Dict.{Dict}

-- The characters of which `unicode.ToLower` is an ASCII letter, and that letter.
abbrev pub lower_letters : Dict ℕ Char
lower_letters =
    (65, "a")
    ∷ (66, "b")
    ∷ (67, "c")
    ∷ (68, "d")
    ∷ (69, "e")
    ∷ (70, "f")
    ∷ (71, "g")
    ∷ (72, "h")
    ∷ (73, "i")
    ∷ (74, "j")
    ∷ (75, "k")
    ∷ (76, "l")
    ∷ (77, "m")
    ∷ (78, "n")
    ∷ (79, "o")
    ∷ (80, "p")
    ∷ (81, "q")
    ∷ (82, "r")
    ∷ (83, "s")
    ∷ (84, "t")
    ∷ (85, "u")
    ∷ (86, "v")
    ∷ (87, "w")
    ∷ (88, "x")
    ∷ (89, "y")
    ∷ (90, "z")
    ∷ (304, "i")
    ∷ (8490, "k")
    ∷ []

-- The characters of which `unicode.ToUpper` is an ASCII letter, and that letter.
abbrev pub upper_letters : Dict ℕ Char
upper_letters =
    (97, "A")
    ∷ (98, "B")
    ∷ (99, "C")
    ∷ (100, "D")
    ∷ (101, "E")
    ∷ (102, "F")
    ∷ (103, "G")
    ∷ (104, "H")
    ∷ (105, "I")
    ∷ (106, "J")
    ∷ (107, "K")
    ∷ (108, "L")
    ∷ (109, "M")
    ∷ (110, "N")
    ∷ (111, "O")
    ∷ (112, "P")
    ∷ (113, "Q")
    ∷ (114, "R")
    ∷ (115, "S")
    ∷ (116, "T")
    ∷ (117, "U")
    ∷ (118, "V")
    ∷ (119, "W")
    ∷ (120, "X")
    ∷ (121, "Y")
    ∷ (122, "Z")
    ∷ (305, "I")
    ∷ (383, "S")
    ∷ []
