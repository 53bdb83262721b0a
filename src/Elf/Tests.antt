-- ===== src/Elf/Tests.antt =====
-- A small library that needs another.
use zabawheels.Prelude.{◌≡◌, refl, [], ◌∷◌, ◌++◌, Bytes, bytes_eq, starts_with, codes}
use zabawheels.Prelude.Outcome.{returned}
use zabawheels.Elf.{
  from_little, unpack, until_nul, string_at, read_offsets, section_header, section_name,
  note_section, scan_sections, needed_loop, needed_in, elf_dynamic_needed,
}

-- The header, three section headers, and the contents of the sections.
abbrev library : Bytes
library =
    (127 ∷ 69 ∷ 76 ∷ 70 ∷ 1 ∷ 1 ∷ 0 ∷ 0 ∷ 0 ∷ 0 ∷ 0 ∷ 0 ∷ 0 ∷ 0 ∷ 0 ∷ 0 ∷ 0 ∷ 0 ∷ 0 ∷ 0 ∷ 0 ∷ 0 ∷ 0
      ∷ 0 ∷ 0 ∷ 0 ∷ 0 ∷ 0 ∷ 0 ∷ 0 ∷ 0 ∷ 0 ∷ 52 ∷ 0 ∷ 0 ∷ 0 ∷ 0 ∷ 0 ∷ 0 ∷ 0 ∷ 0 ∷ 0 ∷ 0 ∷ 0 ∷ 0 ∷ 0
      ∷ 24 ∷ 0 ∷ 3 ∷ 0 ∷ 0 ∷ 0 ∷ [])
    ++ (0 ∷ 0 ∷ 0 ∷ 0 ∷ 3 ∷ 0 ∷ 0 ∷ 0 ∷ 0 ∷ 0 ∷ 0 ∷ 0 ∷ 0 ∷ 0 ∷ 0 ∷ 0 ∷ 124 ∷ 0 ∷ 0 ∷ 0 ∷ 9 ∷ 0 ∷ 0
        ∷ 0 ∷ 0 ∷ 0 ∷ 0 ∷ 0 ∷ 6 ∷ 0 ∷ 0 ∷ 0 ∷ 0 ∷ 0 ∷ 0 ∷ 0 ∷ 0 ∷ 0 ∷ 0 ∷ 0 ∷ 142 ∷ 0 ∷ 0 ∷ 0 ∷ 16
        ∷ 0 ∷ 0 ∷ 0 ∷ 1 ∷ 0 ∷ 0 ∷ 0 ∷ 3 ∷ 0 ∷ 0 ∷ 0 ∷ 0 ∷ 0 ∷ 0 ∷ 0 ∷ 0 ∷ 0 ∷ 0 ∷ 0 ∷ 133 ∷ 0 ∷ 0
        ∷ 0 ∷ 9 ∷ 0 ∷ 0 ∷ 0 ∷ [])
    ++ (0 ∷ 46 ∷ 100 ∷ 121 ∷ 110 ∷ 115 ∷ 116 ∷ 114 ∷ 0 ∷ 0 ∷ 108 ∷ 105 ∷ 98 ∷ 99 ∷ 46 ∷ 115 ∷ 111
        ∷ 0 ∷ 1 ∷ 0 ∷ 0 ∷ 0 ∷ 1 ∷ 0 ∷ 0 ∷ 0 ∷ 0 ∷ 0 ∷ 0 ∷ 0 ∷ 0 ∷ 0 ∷ 0 ∷ 0 ∷ [])

library_needed : elf_dynamic_needed library (λ bytes. bytes) ≡ returned (codes "libc.so" ∷ [])
unfolding from_little unpack until_nul string_at read_offsets section_header section_name
    note_section scan_sections needed_loop needed_in elf_dynamic_needed bytes_eq starts_with
library_needed = refl
