-- ===== src/Server/Updates/Tests.antt =====
-- The theorems about the updates of src/startup_server.c, on a server of two items of which one is due.
use chronos_prototype.Base.{ℕ, ◌≡◌, ◌≢◌, refl, true, false, none, [], ◌∷◌, get_elem?, if◌then◌else◌}
use chronos_prototype.Db
use chronos_prototype.Db.Example.{example_db, example_laws, example-Reliable}
use chronos_prototype.Xact.Example.{prices, acme, acme_quote, acme_quoted, world}
use chronos_prototype.Xact.Success.{benchmark_refresh_quotes2-Success}
use chronos_prototype.Server.Example.{tenths, context}
use chronos_prototype.Server.Process.{process_refresh_transaction}
use chronos_prototype.Server.Updates.{UpdateTurn, update_item, update_items, update_thread}
use chronos_prototype.Server.Updates.Schedule.{mapped, touched_if_due, within, update_items-touched}
use chronos_prototype.Server.Updates.Prices.{OnlyPrices, update_thread-OnlyPrices}

abbrev turn : UpdateTurn
turn = record {
  current_time_ms = 100;
  reading_ms = λ i. 110;
  direction = λ i. 0;
  time_to_die = false;
}

first_updated : (update_items prices tenths example_db 12 turn 0 2 context world).0 ≡ Db.ok tt
unfolding update_items update_item process_refresh_transaction
first_updated =
    let e =
      benchmark_refresh_quotes2-Success example_laws example-Reliable prices acme 12 0 acme_quote
        world refl acme_quoted in
    rw e refl

update_items-touched_example :
    let s' = (update_items prices tenths example_db 12 turn 0 2 context world).1 in
    (s'.current_slot ≡ 0)
    × ((j : ℕ)
        → get_elem? s'.data_items j ≡ (
            if within 0 2 j
            then mapped (touched_if_due tenths turn 0 j) (get_elem? context.data_items j)
            else get_elem? context.data_items j))
    × ((j : ℕ) → within 0 2 j ≡ true → get_elem? context.data_items j ≢ none)
update_items-touched_example =
    update_items-touched prices tenths example_db 12 turn 0 2 context world first_updated

update_thread-OnlyPrices_example :
    let x = update_thread prices tenths example_db 12 0 2 (turn ∷ turn ∷ []) context world in
    OnlyPrices world.env.committed x.2.env.committed × (x.0 ≢ Db.out_of_fuel)
update_thread-OnlyPrices_example =
    update_thread-OnlyPrices example_laws prices tenths 12 0 2 (turn ∷ turn ∷ []) context world
