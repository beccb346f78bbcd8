-- ===== src/Main/Program/Tests.antt =====
-- A run of `main` (src/main_logic.cpp) with one turn.
use rokit_locator_qr_addon.Base.{
  ℕ, ◌+◌, ◌^◌, ◌<◌, ◌≡◌, refl, none, some, [], ◌∷◌, arith, if◌then◌else◌,
}
use rokit_locator_qr_addon.Base.Int.{ℤ, pos}
use rokit_locator_qr_addon.Double.Whole.{whole}
use rokit_locator_qr_addon.Backup.{new_time}
use rokit_locator_qr_addon.Backup.Text.{to_string}
use rokit_locator_qr_addon.Backup.Due.{date}
use rokit_locator_qr_addon.Rpc.{Account}
use rokit_locator_qr_addon.Rpc.Json.{codes, text_eq}
use rokit_locator_qr_addon.Rpc.Session.{entered, input_account}
use rokit_locator_qr_addon.Settings.{Yaml}
use rokit_locator_qr_addon.Settings.Sample.{file, config, file_config}
use rokit_locator_qr_addon.Settings.Reads.{get_config-Has}
use rokit_locator_qr_addon.Db.{lookup, has}
use rokit_locator_qr_addon.Db.Memory.{
  UserTable, SelfTable, user_memory, self_memory, user_memory-IsSqlite, user_memory-IsReliable,
  self_memory-IsSqlite,
}
use rokit_locator_qr_addon.Db.User.Retrieve.{IsUserTable}
use rokit_locator_qr_addon.Main.{World}
use rokit_locator_qr_addon.Main.Sample.{server, server-IsAnswering}
use rokit_locator_qr_addon.Main.Start.Sample.{
  user_table, self_table, disk, disk-Opens, day, old-IsDate, day-IsDate, adds_trigger,
}
use rokit_locator_qr_addon.Main.Loop.{going}
use rokit_locator_qr_addon.Main.Loop.Sample.{first, first-IsCounted}
use rokit_locator_qr_addon.Main.Loop.Counts.{seen, count_in}
use rokit_locator_qr_addon.Main.Program.{Machine, read_account, main}
use rokit_locator_qr_addon.Main.Program.Counts.{IsReady, main-counts}

-- The file config/account.yaml.
abbrev account_file : Yaml ℤ
account_file = record file {
  node =
      λ key. if text_eq key (codes "UserName") then some (codes "admin") else some (codes "1234");
}

abbrev account : Account
account = record { user_name = codes "admin"; pass_word = codes "1234" }

abbrev machine : Machine ℤ UserTable SelfTable UserTable ℕ
machine = record {
  account_yaml = account_file;
  typed = [];
  http = server;
  net = 0;
  config_yaml = file;
  now = day;
  disk = disk;
  diag = record { diag_sock_fd = pos 0; sent = [] };
  garbage = 99;
}

machine_reads : read_account account_file ≡ some account
unfolding read_account
machine_reads = refl

machine_enters : input_account server account [] 0 ≡ entered account account 0
unfolding input_account
machine_enters = refl

config_date : config.last_backup_date ≡ new_time (date 2024 1 9)
unfolding new_time to_string
config_date = refl

machine-IsReady : IsReady machine config user_table
machine-IsReady = record {
  file = account;
  account = account;
  written = account;
  net = 0;
  reads = machine_reads;
  enters = machine_enters;
  has = get_config-Has file config file_config;
  table = self_table;
  backup = record { rows = []; limit = none };
  opens = disk-Opens;
  adds = adds_trigger;
  year = 2024;
  month = 1;
  day = 9;
  last = config_date;
  last_valid = old-IsDate;
  today = day-IsDate;
}

user-IsUserTable : IsUserTable user_table
unfolding has
user-IsUserTable = record { unique = (refl, tt); unlimited = refl }

small_counts : (id : ℕ) → count_in id user_table + 1 < 2 ^ 31
unfolding lookup
small_counts id = ground arith

main-counts_example :
    (w : World ℤ UserTable SelfTable ℕ) × (main machine (first ∷ []) ≡ going w)
    × ((id : ℕ) → count_in id w.user.db ≡ count_in id user_table + seen id (first ∷ []))
main-counts_example =
    main-counts user_memory-IsSqlite user_memory-IsReliable self_memory-IsSqlite machine config
      user_table (first ∷ []) machine-IsReady server-IsAnswering user-IsUserTable
      (first-IsCounted, tt) small_counts
