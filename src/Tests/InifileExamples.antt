-- ===== src/Tests/InifileExamples.antt =====
-- A file of two sections, the first with two values, saved and loaded.
use alarmd.Common.{◌≡◌, refl, some, [], ◌∷◌, arith}
use alarmd.Event.{bytes_eq}
use alarmd.Inifile.{
  Inifile, inifile_get, inifile_setfmt, inifile_save_to_memory, inifile_load, xstrip, xstripall,
  skip_white, trim_end, compress,
}
use alarmd.Inifile.Lines.{file_lines, AllText}
use alarmd.Inifile.Reload.{CleanSections, inifile_load-save_to_memory}
use alarmd.Inifile.Stored.{inifile_get-setfmt}

-- [ab], c:xy, d:, [e]
abbrev two_sections : Inifile
two_sections =
    record {
      is_name = b'a' ∷ b'b' ∷ [];
      is_values =
          record { iv_key = b'c' ∷ []; iv_val = b'x' ∷ b'y' ∷ [] }
          ∷ record { iv_key = b'd' ∷ []; iv_val = [] }
          ∷ [];
    }
    ∷ record { is_name = b'e' ∷ []; is_values = [] }
    ∷ []

two_sections-AllText : AllText (file_lines two_sections)
two_sections-AllText = omega arith

two_sections-CleanSections : CleanSections [] two_sections
unfolding xstrip xstripall skip_white trim_end compress
two_sections-CleanSections = (
  record { closed = omega arith; normal = refl },
  tt,
  (
    record { plain = omega arith; single = omega arith; normal = refl },
    refl,
    tt,
    (
      record { plain = omega arith; single = omega arith; normal = refl },
      refl,
      (λ e. ground (arith, e), tt),
      tt,
    ),
  ),
  (record { closed = omega arith; normal = refl }, (λ e. ground (arith, e), tt), tt, tt),
)

inifile_load-save_to_memory_example :
    inifile_load (inifile_save_to_memory two_sections) ≡ some two_sections
inifile_load-save_to_memory_example =
    inifile_load-save_to_memory two_sections two_sections-AllText two_sections-CleanSections

inifile_get-setfmt_example :
    inifile_get
      (inifile_setfmt two_sections (b'a' ∷ b'b' ∷ []) (b'd' ∷ []) (some (b'z' ∷ [])))
      (b'a' ∷ b'b' ∷ [])
      (b'd' ∷ [])
      []
    ≡ b'z' ∷ []
unfolding bytes_eq
inifile_get-setfmt_example =
    inifile_get-setfmt two_sections (b'a' ∷ b'b' ∷ []) (b'd' ∷ []) (b'z' ∷ []) (b'a' ∷ b'b' ∷ [])
      (b'd' ∷ []) []
