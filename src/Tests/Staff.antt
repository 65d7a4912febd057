-- ===== src/Tests/Staff.antt =====
-- A file of three rows for the import of staff, read on ASCII.
use civicbrain_v.Base.{
  ℕ, ◌≤◌, ◌⊎◌, ◌-◌, ◌+◌, ◌*◌, not, [], ◌∷◌, Bool, true, false, ◌&&◌, leb, if◌then◌else◌, map, all,
  none, some, ◌≡◌, refl, length, arith, select,
}
use civicbrain_v.Text.{Text, codes, is_empty, is_space, text_eq}
use civicbrain_v.Text.Strip.{strip}
use civicbrain_v.Directory.Models.{Directory, Refusal, Outcome, done, refused}
use civicbrain_v.Directory.Cells.{Unicode, IsStandard, sanitize_csv_cell}
use civicbrain_v.Directory.Phone.{normalize_indian_phone}
use civicbrain_v.Directory.Phone.Normal.{IsE164, normalize_indian_phone_idem}
use civicbrain_v.Directory.Rows.{Row, metadata, Reason, read_cells}
use civicbrain_v.Directory.Batch.{Platform, process_row, skip}
use civicbrain_v.Directory.Batch.Audit.{is_skipped, IsNumbered}
use civicbrain_v.Directory.Batch.Forecast.{IsForecast}
use civicbrain_v.Directory.Batch.CountryCode.{process_row_country_code}
use civicbrain_v.Directory.Batch.Roles.{IsEnrolled}
use civicbrain_v.Text.Members.{all_distinct}
use civicbrain_v.Directory.Batch.Phones.{phones}
use civicbrain_v.Directory.Import.Effect.{
  bulk_import_users_counts, bulk_import_users-IsEnrolled, bulk_import_users-all_distinct,
}
use civicbrain_v.Directory.Import.Repeat.{bulk_import_users_repeated}
use civicbrain_v.Directory.Import.Completion.{bulk_import_users_ends}
use civicbrain_v.Directory.Import.Preview.{bulk_import_users-IsForecast}
use civicbrain_v.Directory.Import.{
  loaded, Request, BulkImportResponse, bulk_import_users, read_rows,
}

is_digit : ℕ → Bool
is_digit c = leb b'0' c && leb c b'9'

number : ℕ → Text → ℕ
number n [] = n
number n (c ∷ s) = number (n * 10 + (c - b'0')) s

lower_char : ℕ → ℕ
lower_char c = if leb b'A' c && leb c b'Z' then c + 32 else c

upper_char : ℕ → ℕ
upper_char c = if leb b'a' c && leb c b'z' then c - 32 else c

abbrev ascii : Unicode
ascii = record {
  is_decimal = is_digit;
  upper = map upper_char;
  lower = map lower_char;
  isdigit = λ s. not (is_empty s) && all is_digit s;
  int = λ s. if not (is_empty s) && all is_digit s then some (number 0 s) else none;
}

ascii-IsStandard : IsStandard ascii
unfolding is_digit is_space
ascii-IsStandard = (λ c a b. ground arith, λ c h. ground arith, refl, refl)

normalize_indian_phone_idem_example :
    IsE164 ascii (codes "+919876543210")
    × (normalize_indian_phone ascii (codes "+919876543210") ≡ some (codes "+919876543210"))
unfolding normalize_indian_phone is_digit strip
normalize_indian_phone_idem_example =
    normalize_indian_phone_idem ascii ascii-IsStandard (codes "+91-9876543210") refl

row : Text → Text → Text → Text → Row
row name phone role ward =
    (codes "full_name", some name)
    ∷ (codes "phone", some phone)
    ∷ (codes "role", some role)
    ∷ (codes "ward_number", some ward)
    ∷ []

asha : Row
unfolding row
asha = row (codes "Asha") (codes "98765 43210") (codes "Dispatcher") []

-- The same phone again.
ravi : Row
unfolding row
ravi = row (codes "Ravi") (codes "9876543210") (codes "dispatcher") []

meena : Row
unfolding row
meena = row (codes "Meena") (codes "9876543211") (codes "corporator") (codes "7")

abbrev platform : Platform
platform = record {
  unicode = ascii;
  sha256 = λ s. s;
  fieldnames =
      λ s. some (codes "full_name" ∷ codes "phone" ∷ codes "role" ∷ codes "ward_number" ∷ []);
  rows = λ s. some (asha ∷ ravi ∷ meena ∷ []);
  draw = λ n. record {
    setup_token = [];
    uuid = 100 + n;
    auth_user = none;
    assignment_id = 200 + n;
    representative_id = 300 + n;
  };
  log_id = 1;
  today = 20000;
  now = 1000;
}

abbrev office : Directory
office = record {
  departments = [];
  zones = [];
  wards =
      record { id = 70; organization_id = 1; zone_id = 5; ward_number = 7; name = []; code = [] }
      ∷ [];
  accounts =
      record {
        id = 9;
        organization_id = 1;
        email = none;
        phone = codes "+919000000000";
        full_name = codes "Admin";
        is_active = true;
        mfa_enabled = true;
      }
      ∷ [];
  assignments = [];
  representatives = [];
  import_logs = [];
  invitations = [];
}

abbrev request : Bool → Request
request dry = record {
  org_id = some 1;
  user_id = 9;
  dry_run = dry;
  filename = [];
  content = 1 ∷ [];
}

given_or : {A : Type 0} → A → Outcome A → A
given_or a (done x) = x
given_or a (refused e) = a

abbrev empty_response : BulkImportResponse
empty_response = record {
  file_name = [];
  file_hash = [];
  dry_run = true;
  total_rows = 0;
  created_count = 0;
  skipped_count = 0;
  results = [];
}

after : Bool → BulkImportResponse × Directory
unfolding given_or sanitize_csv_cell bulk_import_users asha ravi meena is_digit number lower_char
    upper_char is_space
after dry = given_or (empty_response, office) (bulk_import_users platform (request dry) office)

imports_dry : bulk_import_users platform (request true) office ≡ done (after true)
unfolding after
imports_dry = refl

imports_real : bulk_import_users platform (request false) office ≡ done (after false)
unfolding after
imports_real = refl

two_of_three : (after false).0.created_count ≡ 2
unfolding after
two_of_three = refl

bulk_import_users_counts_example :
    (1 ≤ (after false).0.total_rows)
    × ((after false).0.total_rows ≤ 500)
    × (length (after false).0.results ≡ (after false).0.total_rows)
    × ((after false).0.created_count + (after false).0.skipped_count ≡ (after false).0.total_rows)
    × (length (select is_skipped (after false).0.results) ≡ (after false).0.skipped_count)
    × IsNumbered 2 (after false).0.results
bulk_import_users_counts_example =
    bulk_import_users_counts platform (request false) office imports_real

bulk_import_users-IsEnrolled_example :
    (org : ℕ) × (some 1 ≡ some org) × IsEnrolled org office (after false).1
bulk_import_users-IsEnrolled_example =
    bulk_import_users-IsEnrolled platform (request false) office imports_real

bulk_import_users-all_distinct_example : all_distinct (phones (after false).1) ≡ true
unfolding all_distinct
bulk_import_users-all_distinct_example =
    bulk_import_users-all_distinct platform (request false) office refl imports_real

bulk_import_users_repeated_example :
    bulk_import_users platform (request false) (after false).1 ≡ refused Refusal.already_processed
bulk_import_users_repeated_example =
    bulk_import_users_repeated platform (request false) office platform (request false) refl
      imports_real refl refl refl refl

bulk_import_users_ends_example :
    ((r : BulkImportResponse × Directory) × (bulk_import_users platform (request true) office
        ≡ done r))
    ⊎ (bulk_import_users platform (request true) office ≡ refused Refusal.value_error)
unfolding read_rows
bulk_import_users_ends_example =
    bulk_import_users_ends platform (request true) office refl refl refl refl

bulk_import_users-IsForecast_example :
    ((after false).0.created_count ≤ (after true).0.created_count)
    × IsForecast (after true).0.results (after false).0.results
bulk_import_users-IsForecast_example =
    bulk_import_users-IsForecast platform (request true) office imports_dry imports_real

-- A row with its phone in the normal form.
kiran : Row
unfolding row
kiran = row (codes "Kiran") (codes "+919876543212") (codes "dispatcher") []

process_row_country_code_example :
    (shown : Text) × (reason : Reason) × (process_row platform 1
        (metadata ascii 1 office)
        true
        2
        kiran
        (loaded platform 1 office)
      ≡ done (skip 2 (read_cells ascii kiran) shown reason (loaded platform 1 office)))
unfolding kiran sanitize_csv_cell is_space text_eq
process_row_country_code_example =
    process_row_country_code platform 1 (metadata ascii 1 office) true 2 kiran
      (loaded platform 1 office) (codes "+919876543212") refl refl
