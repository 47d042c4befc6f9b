-- ===== src/Agent/MagicBytes.antt =====
-- agent/security/content/magic_bytes.py: file types by their first bytes, and the check of the
-- declared Content-Type.
pub mod Detection
pub mod Samples
use aiss_waf_server.Prelude.{
  ℕ, String, Bool, true, false, ◌&&◌, not, Option, none, some, List, [], ◌∷◌, ◌++◌, length, take,
  if◌then◌else◌,
}
use aiss_waf_server.Prelude.Text.{Text, codes, text_eq, before, strip, lower}

pub data FileType : Type 0 where
  exe_windows elf_linux macho php_script php_short shell_shebang python_shebang zip gzip tar_bz2
        seven_zip rar pdf ole2 java_class jar jpeg png gif87 gif89 webp :
      FileType

pub record Signature : Type 0 where
  pub kind : FileType
  pub magic : Text
  pub description : Text

-- The table, in its order.
pub magic_signatures : List Signature
unfolding codes
magic_signatures =
    record {
      kind = exe_windows;
      magic = 0x4D ∷ 0x5A ∷ [];
      description = codes "Windows PE Executable";
    }
    ∷ record {
      kind = elf_linux;
      magic = 0x7F ∷ 0x45 ∷ 0x4C ∷ 0x46 ∷ [];
      description = codes "Linux ELF Executable";
    }
    ∷ record {
      kind = macho;
      magic = 0xCE ∷ 0xFA ∷ 0xED ∷ 0xFE ∷ [];
      description = codes "macOS Mach-O Binary";
    }
    ∷ record {
      kind = php_script;
      magic = 0x3C ∷ 0x3F ∷ 0x70 ∷ 0x68 ∷ 0x70 ∷ [];
      description = codes "PHP Script";
    }
    ∷ record { kind = php_short; magic = 0x3C ∷ 0x3F ∷ []; description = codes "PHP Short Tag" }
    ∷ record {
      kind = shell_shebang;
      magic = 0x23 ∷ 0x21 ∷ [];
      description = codes "Shell Script (#!)";
    }
    ∷ record {
      kind = python_shebang;
      magic =
          0x23 ∷ 0x21 ∷ 0x2F ∷ 0x75 ∷ 0x73 ∷ 0x72 ∷ 0x2F ∷ 0x62 ∷ 0x69 ∷ 0x6E ∷ 0x2F ∷ 0x70 ∷ 0x79
          ∷ [];
      description = codes "Python Script";
    }
    ∷ record {
      kind = zip;
      magic = 0x50 ∷ 0x4B ∷ 0x03 ∷ 0x04 ∷ [];
      description = codes "ZIP Archive / Office Doc";
    }
    ∷ record { kind = gzip; magic = 0x1F ∷ 0x8B ∷ []; description = codes "GZIP Compressed" }
    ∷ record {
      kind = tar_bz2;
      magic = 0x42 ∷ 0x5A ∷ 0x68 ∷ [];
      description = codes "BZip2 Archive";
    }
    ∷ record {
      kind = seven_zip;
      magic = 0x37 ∷ 0x7A ∷ 0xBC ∷ 0xAF ∷ 0x27 ∷ 0x1C ∷ [];
      description = codes "7-Zip Archive";
    }
    ∷ record {
      kind = rar;
      magic = 0x52 ∷ 0x61 ∷ 0x72 ∷ 0x21 ∷ 0x1A ∷ 0x07 ∷ [];
      description = codes "RAR Archive";
    }
    ∷ record {
      kind = pdf;
      magic = 0x25 ∷ 0x50 ∷ 0x44 ∷ 0x46 ∷ [];
      description = codes "PDF Document";
    }
    ∷ record {
      kind = ole2;
      magic = 0xD0 ∷ 0xCF ∷ 0x11 ∷ 0xE0 ∷ [];
      description = codes "MS Office OLE2 (doc/xls/ppt)";
    }
    ∷ record {
      kind = java_class;
      magic = 0xCA ∷ 0xFE ∷ 0xBA ∷ 0xBE ∷ [];
      description = codes "Java Class File";
    }
    ∷ record { kind = jar; magic = 0x50 ∷ 0x4B ∷ 0x03 ∷ 0x04 ∷ []; description = codes "JAR File" }
    ∷ record { kind = jpeg; magic = 0xFF ∷ 0xD8 ∷ 0xFF ∷ []; description = codes "JPEG Image" }
    ∷ record {
      kind = png;
      magic = 0x89 ∷ 0x50 ∷ 0x4E ∷ 0x47 ∷ 0x0D ∷ 0x0A ∷ 0x1A ∷ 0x0A ∷ [];
      description = codes "PNG Image";
    }
    ∷ record {
      kind = gif87;
      magic = 0x47 ∷ 0x49 ∷ 0x46 ∷ 0x38 ∷ 0x37 ∷ 0x61 ∷ [];
      description = codes "GIF87 Image";
    }
    ∷ record {
      kind = gif89;
      magic = 0x47 ∷ 0x49 ∷ 0x46 ∷ 0x38 ∷ 0x39 ∷ 0x61 ∷ [];
      description = codes "GIF89 Image";
    }
    ∷ record {
      kind = webp;
      magic = 0x52 ∷ 0x49 ∷ 0x46 ∷ 0x46 ∷ [];
      description = codes "WEBP Image";
    }
    ∷ []

-- header[:len(magic)] == magic
pub has_magic : Text → Signature → Bool
has_magic header s = text_eq (take (length s.magic) header) s.magic

pub find_signature : Text → List Signature → Option Signature
find_signature header [] = none
find_signature header (s ∷ signatures) =
    if has_magic header s then some s else find_signature header signatures

pub detect_file_type : Text → Option Signature
unfolding has_magic find_signature magic_signatures
detect_file_type content = find_signature (take 16 content) magic_signatures

-- `DANGEROUS_TYPES`
pub is_dangerous_type : FileType → Bool
is_dangerous_type exe_windows = true
is_dangerous_type elf_linux = true
is_dangerous_type macho = true
is_dangerous_type php_script = true
is_dangerous_type php_short = true
is_dangerous_type shell_shebang = true
is_dangerous_type python_shebang = true
is_dangerous_type java_class = true
is_dangerous_type _ = false

-- `CONTENT_TYPE_MAP`: `some` of the expected types, `none` where the type is not in the map.
pub expected_types : Text → Option (List FileType)
unfolding codes
expected_types ct =
    if text_eq ct (codes "image/jpeg")
    then some (jpeg ∷ [])
    else if text_eq ct (codes "image/png")
    then some (png ∷ [])
    else if text_eq ct (codes "image/gif")
    then some (gif87 ∷ gif89 ∷ [])
    else if text_eq ct (codes "image/webp")
    then some (webp ∷ [])
    else if text_eq ct (codes "application/pdf")
    then some (pdf ∷ [])
    else if text_eq ct (codes "application/zip")
    then some (zip ∷ seven_zip ∷ rar ∷ [])
    else if text_eq ct (codes "text/plain")
    then some []
    else none

FileType-discrete : Discrete FileType
FileType-discrete = hlevel

pub is_member : FileType → List FileType → Bool
is_member k [] = false
is_member k (j ∷ ks) = elim (FileType-discrete k j) [ yes _ ↦ true | no _ ↦ is_member k ks ]

pub record ContentVerdict : Type 0 where
  pub detected : Option Signature
  pub declared_content_type : Text
  pub is_dangerous : Bool
  pub is_spoofed : Bool
  pub should_block : Bool
  pub reason : Text

-- expected and detected_key not in expected
pub is_spoof : FileType → Option (List FileType) → Bool
unfolding is_member FileType-discrete
is_spoof k none = false
is_spoof k (some []) = false
is_spoof k (some (j ∷ ks)) = not (is_member k (j ∷ ks))

judge : Text → Signature → ContentVerdict
unfolding codes
judge ct s =
    if is_dangerous_type s.kind
    then record {
      detected = some s;
      declared_content_type = ct;
      is_dangerous = true;
      is_spoofed = false;
      should_block = true;
      reason = codes "Dangerous file type detected: " ++ s.description;
    }
    else if is_spoof s.kind (expected_types ct)
    then record {
      detected = some s;
      declared_content_type = ct;
      is_dangerous = false;
      is_spoofed = true;
      should_block = true;
      reason =
          codes "Content-Type spoofing: claimed '"
          ++ (ct ++ (codes "' but file is actually " ++ s.description));
    }
    else record {
      detected = some s;
      declared_content_type = ct;
      is_dangerous = false;
      is_spoofed = false;
      should_block = false;
      reason = [];
    }

pub declared_type : Text → Text
declared_type content_type = lower (strip (before b';' content_type))

pub validate_content_type : Text → Text → ContentVerdict
unfolding judge declared_type
validate_content_type content content_type =
    let ct = declared_type content_type in
    elim (detect_file_type content) [
      | none ↦ record {
        detected = none;
        declared_content_type = ct;
        is_dangerous = false;
        is_spoofed = false;
        should_block = false;
        reason = [];
      }
      | some s ↦ judge ct s
    ]
