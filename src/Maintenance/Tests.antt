-- ===== src/Maintenance/Tests.antt =====
-- The theorem on the maintenance windows, at a window of Sunday.
use domain_ssl_checker.Maintenance.{MwRow, MwState, save_window, new_form, show_form}
use domain_ssl_checker.Forms.Inputs.{is_time}
use domain_ssl_checker.Maintenance.Laws.{sent_for_window, save_window-edit}
use domain_ssl_checker.Base.{codes, none, some, true, false, ◌≡◌, [], pos, ◌∷◌, arith, refl}

abbrev sunday_window : MwRow
sunday_window = record {
  id = 3;
  name = codes "backup";
  description = none;
  day_of_week = some 0;
  start_time = codes "01:00";
  end_time = codes "02:00";
  target_type = codes "all";
}

abbrev no_window : MwState
no_window = record { editing = none; form = new_form; form_open = false }

save_window-edit_example :
    sent_for_window 3 (save_window true (show_form (some sunday_window) no_window)).1
    ≡ record {
      name = codes "backup";
      description = [];
      day_of_week = pos 7;
      start_time = codes "01:00";
      end_time = codes "02:00";
      target_type = codes "all";
    }
      ∷ []
unfolding is_time
save_window-edit_example = save_window-edit true sunday_window 0 no_window (record {
  day_of_week = refl;
  to_seven = omega arith;
  name = (refl, refl);
  description = (refl, refl);
  named = refl;
  start_time = refl;
  end_time = refl;
  target_type = refl;
})
