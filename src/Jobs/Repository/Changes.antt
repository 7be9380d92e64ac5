-- ===== src/Jobs/Repository/Changes.antt =====
-- Each SET clause of the repository keeps the soundness of the rows that its WHERE clause admits.
use graph_blizz.Prelude.{
  ℕ, ◌≤◌, ◌≡◌, Bool, some, true, false, arith, String, ℤ, is_positive, is_negative, refl,
}
use graph_blizz.Jobs.Models.{JobErrorCode, is_malformed_owner}
use graph_blizz.Jobs.Rows.{JobRow}
use graph_blizz.Jobs.Rows.Checks.{IsChecked, good_owner}
use graph_blizz.Jobs.Repository.{
  is_claimable, claimed, is_owned, renewed, completed, released, is_expired,
}
use graph_blizz.Jobs.Repository.Soundness.{IsSoundRow, Keeps}

module _ (locked : ℕ → Bool) (now : ℕ) (owner : String) (lease_for : ℤ)
    (good : is_malformed_owner owner ≡ false) (lasting : is_positive lease_for ≡ true) where
  claimed-IsChecked :
      (r : JobRow)
      → IsSoundRow r
      → is_claimable locked now r ≡ true
      → IsChecked (claimed owner lease_for now r)
  unfolding claimed is_claimable
  claimed-IsChecked r s h = ground (arith, good_owner (some owner) good)

  pub claimed-Keeps :
      (r : JobRow)
      → IsSoundRow r
      → is_claimable locked now r ≡ true
      → Keeps r (claimed owner lease_for now r)
  claimed-Keeps r s h = record {
    sound = record {
      checks = claimed-IsChecked r s h;
      owner = unfold claimed in good;
      timed = unfold claimed in refl;
    };
    id = unfold claimed in refl;
    document = unfold claimed in refl;
    active = unfold is_claimable in ground arith;
  }

module _ (id : ℕ) (owner : String) (attempt now : ℕ) where
  module _ (lease_for : ℤ) (lasting : is_positive lease_for ≡ true) where
    pub renewed-Keeps :
        (r : JobRow)
        → IsSoundRow r
        → r.updated_at ≤ now
        → is_owned id owner attempt now r ≡ true
        → Keeps r (renewed lease_for now r)
    unfolding renewed is_owned
    renewed-Keeps r s c h = record {
      sound = record { checks = ground arith; owner = s.owner; timed = ground arith };
      id = refl;
      document = refl;
      active = λ a. a;
    }

  pub completed-Keeps :
      (r : JobRow)
      → IsSoundRow r
      → r.updated_at ≤ now
      → is_owned id owner attempt now r ≡ true
      → Keeps r (completed now r)
  unfolding completed is_owned
  completed-Keeps r s c h = record {
    sound = record { checks = ground arith; owner = refl; timed = refl };
    id = refl;
    document = refl;
    active = λ a. cc;
  }

  module _ (error_code : JobErrorCode) (retry_after : ℤ)
      (later : is_negative retry_after ≡ false) where
    pub released-Keeps :
        (r : JobRow)
        → IsSoundRow r
        → r.updated_at ≤ now
        → is_owned id owner attempt now r ≡ true
        → Keeps r (released error_code retry_after now r)
    unfolding released is_owned
    released-Keeps r s c h = record {
      sound = record { checks = ground arith; owner = refl; timed = ground arith };
      id = refl;
      document = refl;
      active = ground arith;
    }

-- An expired lease needs no assumption on the clock: it ended after its own heartbeat.
module _ (now : ℕ) (error_code : JobErrorCode) (retry_after : ℤ)
    (later : is_negative retry_after ≡ false) where
  pub recovered-Keeps :
      (r : JobRow)
      → IsSoundRow r
      → is_expired now r ≡ true
      → Keeps r (released error_code retry_after now r)
  unfolding released is_expired
  recovered-Keeps r s h = record {
    sound = record { checks = ground arith; owner = refl; timed = ground arith };
    id = refl;
    document = refl;
    active = ground arith;
  }
