-- ===== src/Elf.antt =====
-- The reader of ELF files of app/zmux/elfscan.py. Files are lists of bytes; the errors of `struct` and of
-- `bytes.index` are raised under the name of the function that raises them.
pub mod Tests
use zabawheels.Prelude.Outcome.{Outcome, raised, returned, ◌>>=◌, ◌>>◌, require, or_raise}
use zabawheels.Prelude.{
  ℕ, zero, suc, ◌+◌, ◌-◌, ◌*◌, ◌/◌, Bool, true, false, not, ◌&&◌, ◌||◌, Option, none, some, List,
  [], ◌∷◌, ◌++◌, Bytes, Text, codes, bytes_eq, starts_with, length, take, drop, leb, ◌==◌,
  get_elem?, if◌then◌else◌,
}
use zabawheels.Web.Frame.{from_bytes}

-- A number in bytes, the lowest first.
unfoldable pub from_little : Bytes → ℕ
from_little [] = 0
from_little (b ∷ bytes) = b + 256 * from_little bytes

-- `struct.unpack_from`, of one unsigned field.
unfoldable pub unpack : Bool → Bytes → ℕ → ℕ → Outcome ℕ
unpack little file width offset =
    let field = take width (drop offset file) in
    if leb (offset + width) (length file)
    then returned (if little then from_little field else from_bytes 0 field)
    else raised (codes "struct.unpack_from")

-- The bytes ahead of the first NUL, looked for in so many bytes.
unfoldable pub until_nul : ℕ → Bytes → Option Bytes
until_nul zero file = none
until_nul (suc n) [] = none
until_nul (suc n) (b ∷ file) =
    let rest = until_nul n file in
    if b == 0 then some [] else elim rest [ none ↦ none | some bytes ↦ some (b ∷ bytes) ]

-- `data[start:data.index(b"\x00", start, stop)]`
unfoldable pub string_at : Bytes → ℕ → ℕ → Outcome Bytes
string_at file start stop =
    or_raise (until_nul (stop - start) (drop start file)) (codes "bytes.index")

-- What the first bytes of a file say: its class, its byte order, and where the section headers stand.
pub record Header : Type 0 where
  pub elf_class : ℕ
  pub little : Bool
  pub shoff : ℕ
  pub shentsize : ℕ
  pub shnum : ℕ
  pub shstrndx : ℕ

pub record Section : Type 0 where
  pub name : ℕ
  pub sec_type : ℕ
  pub offset : ℕ
  pub size : ℕ

-- An offset and a size, for each of the two sections that are looked for.
pub record Sections : Type 0 where
  pub dynamic : Option (ℕ × ℕ)
  pub dynstr : Option (ℕ × ℕ)

abbrev pub not_elf : Text
not_elf = codes "not an ELF file"

abbrev pub byte_at : Bytes → ℕ → Outcome ℕ
byte_at file i = or_raise (get_elem? file i) (codes "index out of range")

-- The bytes of a tag or a value, and the entries of a dynamic section of a size.
abbrev pub entry_width : Header → ℕ
entry_width h = if h.elf_class == 1 then 4 else 8

abbrev pub entries : Header → ℕ → ℕ
entries h size = let step = entry_width h * 2 in (size + step - 1) / step

abbrev pub is_none : Option (ℕ × ℕ) → Bool
is_none none = true
is_none (some p) = false

module _ (file : Bytes) where
  -- The fields behind the identification; a class that is not 1 is read as 64 bits.
  unfoldable pub read_offsets : ℕ → Bool → Outcome Header
  read_offsets elf_class little = do
    shoff ← if elf_class == 1 then unpack little file 4 0x20 else unpack little file 8 0x28
    let at = if elf_class == 1 then 0x2E else 0x3A
    shentsize ← unpack little file 2 at
    shnum ← unpack little file 2 (at + 2)
    shstrndx ← unpack little file 2 (at + 4)
    returned (record {
      elf_class = elf_class;
      little = little;
      shoff = shoff;
      shentsize = shentsize;
      shnum = shnum;
      shstrndx = shstrndx;
    })

  abbrev pub is_elf : Bool
  is_elf = starts_with (0x7F ∷ codes "ELF") file

  -- `section_header`
  unfoldable pub section_header : Header → ℕ → Outcome Section
  section_header h index = do
    let offset = h.shoff + index * h.shentsize
    let wide = not (h.elf_class == 1)
    let width = if wide then 8 else 4
    name ← unpack h.little file 4 offset
    sec_type ← unpack h.little file 4 (offset + 4)
    sec_offset ← unpack h.little file width (offset + (if wide then 0x18 else 0x10))
    size ← unpack h.little file width (offset + (if wide then 0x20 else 0x14))
    returned (record { name = name; sec_type = sec_type; offset = sec_offset; size = size })

  module _ (decode : Bytes → Text) where
    -- `section_name`, in the section-header string table.
    unfoldable pub section_name : Section → Section → Outcome Text
    section_name table s = do
      bytes ← string_at file (table.offset + s.name) (table.offset + table.size)
      returned (decode bytes)

    -- The body of the loop over the sections.
    unfoldable pub note_section : Section → Text → Sections → Sections
    note_section s name found =
        if s.sec_type == 6 && is_none found.dynamic
        then record found { dynamic = some (s.offset, s.size) }
        else if bytes_eq name (codes ".dynstr") && s.sec_type == 3
        then record found { dynstr = some (s.offset, s.size) }
        else found

    unfoldable pub scan_sections : Header → Section → ℕ → ℕ → Sections → Outcome Sections
    scan_sections h table zero index found = returned found
    scan_sections h table (suc count) index found = do
      s ← section_header h index
      let next = λ (f : Sections). scan_sections h table count (suc index) f
      if index == h.shstrndx
          then next found
          else (section_name table s >>= λ name. next (note_section s name found))

    -- The loop over the dynamic section for the names needed. A signed tag is read as unsigned, which the
    -- comparisons with 0 and 1 do not tell apart.
    unfoldable pub needed_loop : Header → ℕ × ℕ → ℕ → ℕ → List Text → Outcome (List Text)
    needed_loop h (str_off, str_size) zero offset needed = returned needed
    needed_loop h (str_off, str_size) (suc count) offset needed = do
      tag ← unpack h.little file (entry_width h) offset
      value ← unpack h.little file (entry_width h) (offset + entry_width h)
      let next = λ (names : List Text).
          needed_loop h (str_off, str_size) count (offset + entry_width h * 2) names
      if tag == 0
          then returned needed
          else if not (tag == 1)
          then next needed
          else if leb (str_off + str_size) (str_off + value)
          then next needed
          else (string_at file (str_off + value) (str_off + str_size) >>= λ bytes.
              next (needed ++ decode bytes ∷ []))

    -- The loop for a single tag.
    unfoldable pub tag_loop : Header → ℕ → ℕ × ℕ → ℕ → ℕ → Outcome (Option Text)
    tag_loop h wanted (str_off, str_size) zero offset = returned none
    tag_loop h wanted (str_off, str_size) (suc count) offset = do
      tag ← unpack h.little file (entry_width h) offset
      value ← unpack h.little file (entry_width h) (offset + entry_width h)
      let next = tag_loop h wanted (str_off, str_size) count (offset + entry_width h * 2)
      if tag == 0
          then returned none
          else if not (tag == wanted)
          then next
          else (string_at file (str_off + value) (str_off + str_size) >>= λ bytes.
              returned (some (decode bytes)))

    unfoldable pub needed_in : Header → Sections → Outcome (List Text)
    needed_in h found = elim found.dynamic [
      | none ↦ raised (codes "no .dynamic/.dynstr sections (static ELF?)")
      | some (dyn_off, dyn_size) ↦ elim found.dynstr [
        | none ↦ raised (codes "no .dynamic/.dynstr sections (static ELF?)")
        | some str ↦ needed_loop h str (entries h dyn_size) dyn_off []
      ]
    ]

    unfoldable pub tag_in : Header → ℕ → Sections → Outcome (Option Text)
    tag_in h wanted found = elim found.dynamic [
      | none ↦ returned none
      | some (dyn_off, dyn_size) ↦ elim found.dynstr [
        | none ↦ returned none
        | some str ↦ tag_loop h wanted str (entries h dyn_size) dyn_off
      ]
    ]

    -- `elf_dynamic_needed`, from the file's bytes.
    unfoldable pub elf_dynamic_needed : Outcome (List Text)
    elf_dynamic_needed = do
      require is_elf not_elf
      elf_class ← byte_at file 4
      order ← byte_at file 5
      require (elf_class == 1 || elf_class == 2) (codes "unsupported ELF class")
      h ← read_offsets elf_class (order == 1)
      require (not (h.shoff == 0 || h.shnum == 0 || h.shentsize == 0))
          (codes "no section header table")
      table ← section_header h h.shstrndx
      require (table.sec_type == 3) (codes "bad section-header string table")
      found ← scan_sections h table h.shnum 0 (record { dynamic = none; dynstr = none })
      needed_in h found

    -- `_elf_dynamic_string`
    unfoldable pub elf_dynamic_string : ℕ → Outcome (Option Text)
    elf_dynamic_string wanted = do
      require is_elf not_elf
      elf_class ← byte_at file 4
      order ← byte_at file 5
      h ← read_offsets elf_class (order == 1)
      table ← section_header h h.shstrndx
      found ← scan_sections h table h.shnum 0 (record { dynamic = none; dynstr = none })
      tag_in h wanted found

    -- `elf_soname`. Of the exceptions of `_elf_dynamic_string` only that of a file that is no ELF is caught.
    unfoldable pub elf_soname : Outcome (Option Text)
    elf_soname = elim (elf_dynamic_string 14) [
      | raised e ↦ if bytes_eq e not_elf then returned none else raised e
      | returned name ↦ returned name
    ]
