-- ===== src/Priv/Examples.antt =====
-- Dropping of privileges of libbase/lib/priv.c on a small host.
use ngim.Base.{refl, true, false, some, [], ◌∷◌}
use ngim.Priv.{
  Process, Host, as_int, drop_caps, set_user, user_known, drop_user, set_group, group_known,
  priv_drop, priv_current,
}
use ngim.Priv.Dropped.{IsDropped, priv_drop-IsDropped}

abbrev host : Host
host = record {
  user = λ s. some 1000;
  group = λ s. some 100;
  can_setgroups = true;
  can_setgid = true;
  can_setuid = true;
  regains = false;
  can_prctl = true;
  can_init = true;
  can_set_permitted = true;
  can_set_effective = true;
  can_set_proc = true;
}

abbrev root : Process
root = record { uid = 0; gid = 0; groups = 0 ∷ 4 ∷ []; caps = 0 }

abbrev nobody : Process
nobody = record { uid = 1000; gid = 100; groups = 100 ∷ []; caps = 0 }

priv_drop-IsDropped_example :
    IsDropped host priv_current (some (b'n' ∷ [])) (some (b'g' ∷ [])) root nobody
unfolding priv_drop group_known as_int set_group drop_user user_known set_user drop_caps
priv_drop-IsDropped_example =
    priv_drop-IsDropped host priv_current (some (b'n' ∷ [])) (some (b'g' ∷ [])) root nobody refl
