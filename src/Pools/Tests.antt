-- ===== src/Pools/Tests.antt =====
-- The operations of internal/pool/manager.go at a small configuration.
use simple_mining_proxy.Base.{
  ◌≡◌, refl, Bool, true, false, none, some, [], ◌∷◌, txt, text_eq, to_lower, without, arith,
}
use simple_mining_proxy.State.{File, find_pool, addr_string, digits_from}
use simple_mining_proxy.State.Fields.{
  valid_pool_id, rune_count, host_error, addresses_loop, addresses_error, pool_field_errors,
}
use simple_mining_proxy.State.Store.{
  Store, ok, invalid, write_failed, mutate, check, check_pools, pool_error, active_error,
  check_fallback, fallback_error,
}
use simple_mining_proxy.State.Tests.{no_ip, pool_a, pool_b, sample, sample-IsValid}
use simple_mining_proxy.Pools.Edit.{
  has_pool, switched, rotated, activate_file, remove_pool, delete_file, set_profit_home_file,
}
use simple_mining_proxy.Pools.Ids.{make_id, free_id, id_base, candidate}
use simple_mining_proxy.Pools.Input.{trim, trim_left}
use simple_mining_proxy.Pools.Switching.{restore-activate}
use simple_mining_proxy.Pools.FreshIds.{make_id_fresh}
use simple_mining_proxy.Pools.Requests.{switch, set_home, edit, perform}
use simple_mining_proxy.Pools.Sound.{IsWellFormed, edit-IsWellFormed, perform-invalid}

-- The sample after a switch to its second pool.
abbrev on_b : File
on_b = record sample { active_pool = txt "b"; fallback_pools = txt "a" ∷ [] }

activate_b : activate_file (txt "b") false false none sample ≡ ok on_b
unfolding activate_file switched rotated find_pool without text_eq
activate_b = refl

restore-activate_example : activate_file (txt "a") true true (some (txt "b" ∷ [])) on_b ≡ ok sample
restore-activate_example =
    restore-activate no_ip (txt "b") false false true sample sample-IsValid (λ e. cc) activate_b

abbrev only_a : File
only_a = record sample { fallback_pools = []; pools = pool_a ∷ [] }

delete_b : delete_file (txt "b") sample ≡ ok only_a
unfolding delete_file remove_pool find_pool without text_eq
delete_b = refl

make_id_test : make_id (txt "My Pool!") sample ≡ txt "my_pool"
unfolding make_id free_id id_base candidate trim trim_left find_pool to_lower text_eq
make_id_test = refl

make_id_fresh_example : has_pool sample (make_id (txt "A") sample) ≡ false
make_id_fresh_example = make_id_fresh (txt "A") sample

sample-IsWellFormed : IsWellFormed no_ip sample
sample-IsWellFormed = record {
  valid = sample-IsValid;
  marked = record {
    one_target = omega arith;
    one_home = omega arith;
    homes_take_part = (refl, (refl, tt));
  };
}

edit-IsWellFormed_example : IsWellFormed no_ip on_b
unfolding edit
edit-IsWellFormed_example =
    edit-IsWellFormed no_ip (switch (txt "b") false false none) sample (omega arith)
      sample-IsWellFormed activate_b

abbrev stored : Store
stored = record { disk = some sample; cur = sample }

abbrev home_a : File
home_a = record sample { pools = record pool_a { profit_home = true } ∷ pool_b ∷ [] }

unwritten : (perform no_ip false (set_home (txt "a")) stored).1 ≡ some (invalid write_failed)
unfolding perform edit mutate set_profit_home_file find_pool text_eq check check_pools pool_error
    active_error check_fallback fallback_error valid_pool_id rune_count host_error addresses_loop
    addresses_error pool_field_errors addr_string to_lower digits_from
unwritten = refl

perform-invalid_example : (◌≡◌ {A = Bool} false false) × (write_failed ≡ write_failed)
perform-invalid_example =
    perform-invalid no_ip false (set_home (txt "a")) stored (omega arith) sample-IsWellFormed
      unwritten
