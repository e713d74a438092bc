-- ===== src/Server/Tests/Pages.antt =====
-- The theorems on the page of stored files at one file and a small template.
use asyn_log_system.Prelude.Decimal.{decimal}
use asyn_log_system.Server.Disk.{file_name}
use asyn_log_system.Server.DataManager.RwLock.{unlocked}
use asyn_log_system.Server.Listing.Template.Replace.{clear}
use asyn_log_system.Server.Disk.{file, File}
use asyn_log_system.Prelude.Text.{begins, contains, after_last, codes, has, Text}
use asyn_log_system.Prelude.Table.{values}
use asyn_log_system.Server.DataManager.Entry.{StorageInfo}
use asyn_log_system.Server.Service.{signed_decimal, Session}
use asyn_log_system.Prelude.{
  arith, ◌+◌, ◌*◌, ◌<◌, refl, ◌^◌, some, [], none, ◌⊎◌, ◌≤◌, ◌∷◌, ok, ◌≡◌, ℕ,
}
use asyn_log_system.Server.Listing.{generate_modern_file_list, list_show, file_items, file_item}
use asyn_log_system.Server.Listing.Size.{format_size, print_size}
use asyn_log_system.Server.Listing.Size.Bounds.{format_size_lem}
use asyn_log_system.Server.Listing.Page.{IsTemplate, page_of, template_of, list_show-page}
use asyn_log_system.Server.Tests.Sample.{config, host}

format_size_lem_example :
    (i : ℕ) × (hundredths : ℕ) × (format_size 2176 ≡ print_size hundredths i)
    × (i ≤ 3)
    × ((i ≡ 0) ⊎ (1024 ^ i < 2176))
    × ((i ≡ 3) ⊎ (2176 ≤ 1024 * 1024 ^ i))
    × (2 * (hundredths * 1024 ^ i) ≤ 200 * 2176 + 1024 ^ i)
    × (200 * 2176 ≤ 2 * (hundredths * 1024 ^ i) + 1024 ^ i)
format_size_lem_example = format_size_lem 2176 (omega arith)

abbrev today : ℕ → Text
today t = codes "today"

abbrev info : StorageInfo
info = record {
  mtime = 1700000000;
  atime = 1700000000;
  fsize = 3;
  storage_path = codes "./low_storage/a.txt";
  url = codes "/download/low_storage/a.txt";
}

abbrev first_part : Text
first_part = codes "<style>p {}</style>"

abbrev second_part : Text
second_part = codes "<script>url: '"

abbrev third_part : Text
third_part = codes "'</script>"

abbrev page_file : File
page_file = record {
  content = template_of first_part second_part third_part;
  mtime = 1700000000;
  atime = 1700000000;
}

abbrev stocked : Session
stocked = record {
  world = record {
    manager = record {
      storage_file = config.storage_info;
      lock = unlocked;
      table = (info.url, info) ∷ [];
    };
    disk = record { nodes = λ p. some (file page_file); now = 1700000000 };
  };
  replies = [];
}

parts-IsTemplate :
    IsTemplate config first_part second_part third_part
      (generate_modern_file_list today (info ∷ []))
unfolding signed_decimal clear has generate_modern_file_list file_items file_item file_name
    after_last contains begins format_size print_size decimal
parts-IsTemplate = record {
  before_list = refl;
  after_list = refl;
  before_url = refl;
  after_url = refl;
  list_plain = refl;
  address_plain = refl;
}

list_show-page_example :
    list_show today host config stocked
    ≡ ok (record stocked {
      replies =
          record {
            code = 200;
            reason = none;
            headers = (codes "Content-Type", codes "text/html;charset=utf-8") ∷ [];
            body = page_of today config (info ∷ []) first_part second_part third_part;
          }
          ∷ [];
    })
unfolding values
list_show-page_example =
    list_show-page today host config stocked first_part second_part third_part refl
      (page_file, refl, refl) refl parts-IsTemplate
