-- ===== src/Db/Tests.antt =====
-- Runs of the two controllers of src/database_controller.cpp on small tables.
use rokit_locator_qr_addon.Base.{
  ◌&&◌, ◌+◌, ℕ, ◌≡◌, refl, true, false, none, some, List, [], ◌∷◌, ◌++◌, if◌then◌else◌, arith, ltb,
  length, drop, All,
}
use Prim.Native.Nat.{min}
use rokit_locator_qr_addon.Base.Int.{ℤ, pos}
use rokit_locator_qr_addon.Double.Whole.{whole}
use rokit_locator_qr_addon.Dm.{DmInfo, new_info}
use rokit_locator_qr_addon.Db.{insert, select, has, lookup, matching, meaning}
use rokit_locator_qr_addon.Db.Memory.{
  memory, UserTable, SelfTable, user_memory, self_memory, user_memory-IsSqlite,
  user_memory-IsReliable, user_contents, self_memory-IsSqlite,
}
use rokit_locator_qr_addon.Db.User.{Row, UserDb, to_row, retrieve_usr_db, retrieve_call_back}
use rokit_locator_qr_addon.Db.User
use rokit_locator_qr_addon.Db.User.Retrieve.{IsUserTable, retrieved, wanted, retrieve_usr_db_lem}
use rokit_locator_qr_addon.Db.User.Refines.{
  Op, retrieves, adds, updates, IsSmall, Codes, spec, run, Refines, run-Refines,
}
use rokit_locator_qr_addon.Db.Self.{SelfRow, to_self_row, no_pose, sum_poses, divide, fit_pose}
use rokit_locator_qr_addon.Db.Self
use rokit_locator_qr_addon.Db.Self.Bound.{add_content_bound}
use rokit_locator_qr_addon.Db.Self.Fit.{count, Shows, fit_pose_lem}

-- The code 7, seen four times.
abbrev code : DmInfo ℤ
code = record {
  id = 7;
  pose = record { x = pos 1; y = pos 2; yaw = pos 3 };
  cnt = 4;
  sloppy_cnt = 0;
  recommend = false;
  enable = true;
  have_sloppy = false;
}

abbrev row : ℕ → Row ℤ
row id = record {
  dm_id = id;
  dm_x = pos 10;
  dm_y = pos 20;
  dm_yaw = pos 30;
  dm_cnt = 3;
  sloppy_cnt = 1;
  recommend = false;
  enable = true;
}

abbrev codes_db : UserDb UserTable
codes_db = record { db = record { rows = row 5 ∷ row 7 ∷ []; limit = none }; whether_cb = false }

codes-IsUserTable : IsUserTable codes_db.db
unfolding has
codes-IsUserTable = record { unique = (refl, (refl, tt)); unlimited = refl }

abbrev other_db : UserDb UserTable
other_db = record { db = record { rows = row 5 ∷ []; limit = none }; whether_cb = false }

other-IsUserTable : IsUserTable other_db.db
unfolding has
other-IsUserTable = record { unique = (refl, tt); unlimited = refl }

-- The code is found, another one is not.
retrieve_runs :
    ((retrieve_usr_db 0 code codes_db).0 ≡ true)
    × ((retrieve_usr_db 0 code codes_db).1.cnt ≡ 3)
    × ((retrieve_usr_db 0 code other_db).0 ≡ false)
unfolding retrieve_usr_db memory matching
retrieve_runs = (refl, refl, refl)

retrieve_usr_db_lem_example :
    let (answer, db) = user_memory.exec (select 7 1) codes_db.db in
    (retrieve_usr_db 99 code codes_db ≡ retrieved code db (wanted answer.ok 7 codes_db.db.rows))
    × (db ≡ codes_db.db)
retrieve_usr_db_lem_example =
    retrieve_usr_db_lem user_memory-IsSqlite 99 code codes_db codes-IsUserTable refl (omega arith)

-- A new code is added twice, and then updated and found; the id 0 is not.
abbrev ops : List (Op ℤ)
ops =
    adds (record code { id = 9 })
    ∷ adds code
    ∷ updates (record code { id = 9; cnt = 5 })
    ∷ retrieves 99 (record code { id = 9 })
    ∷ retrieves 99 (record code { id = 0 })
    ∷ []

ops-IsSmall : All IsSmall ops
ops-IsSmall = (tt, (tt, (tt, (omega arith, (omega arith, tt)))))

abbrev codes : Codes ℤ
codes i = lookup User.schema i codes_db.db.rows

codes-Refines : Refines user_contents codes_db codes
codes-Refines = record { table = codes-IsUserTable; flag = refl; finds = λ i. refl }

run_counts :
    (spec ops codes).0
    ≡ (true, record code { id = 9; cnt = 5 }) ∷ (false, record code { id = 0 }) ∷ []
unfolding lookup retrieve_call_back to_row new_info
run_counts = refl

run-Refines_example :
    ((run ops codes_db).0 ≡ (spec ops codes).0)
    × Refines user_contents (run ops codes_db).1 (spec ops codes).1
run-Refines_example =
    run-Refines user_memory-IsSqlite user_memory-IsReliable ops codes_db codes ops-IsSmall
      codes-Refines

abbrev sighting : SelfRow ℤ
sighting = record { row = row 7; have_sloppy = false }

-- Two sightings, and the trigger for one row more than the other table has.
abbrev sightings : SelfTable
sightings = record { rows = sighting ∷ sighting ∷ []; limit = some 2 }

-- The third row makes the first one go.
add_content_runs : ((Self.add_content code sightings).rows ≡ sighting ∷ to_self_row code ∷ [])
unfolding Self.add_content memory meaning
add_content_runs = refl

add_content_bound_example :
    let old = sightings.rows in
    let new = (Self.add_content code sightings).rows in
    let all = old ++ (to_self_row code ∷ []) in
    let ok = (self_memory.exec (insert (to_self_row code)) sightings).0.ok in
    ((Self.add_content code sightings).limit ≡ some 2)
    × (new ≡ (if ok then if ltb 2 (length all) then drop 1 all else all else old))
    × (length new ≡ (if ok && ltb (length old) 2 then length old + 1 else length old))
add_content_bound_example = add_content_bound self_memory-IsSqlite 2 code sightings refl

select_sightings : (self_memory.exec (select 7 3) sightings).0.ok ≡ true
unfolding memory meaning
select_sightings = refl

fit_pose_lem_example :
    (samples : List (SelfRow ℤ)) × ((fit_pose 3 code sightings).0
      ≡ record code { pose = divide (sum_poses no_pose samples) 3 })
    × All (Shows 7) samples
    × (length samples ≡ min 3 (count 7 sightings.rows))
    × ((fit_pose 3 code sightings).1 ≡ sightings)
fit_pose_lem_example = fit_pose_lem self_memory-IsSqlite 3 code sightings select_sightings
