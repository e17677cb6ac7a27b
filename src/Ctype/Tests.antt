-- ===== src/Ctype/Tests.antt =====
-- Concrete characters for kernel/libc/ctype.c.
use dos.Prelude.{false, refl, true, ◌≡◌}
use dos.Ctype.{isspace, isxdigit, isprint}

classes :
    (isspace 10 ≡ true) × (isxdigit b'f' ≡ true) × (isxdigit b'g' ≡ false) × (isprint 7 ≡ false)
unfolding isspace isxdigit isprint
classes = (refl, refl, refl, refl)
