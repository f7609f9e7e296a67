-- ===== src/Leds.antt =====
-- src/leds/leds_handler.hpp and leds_handler.cpp: the three indicator lights.
use openpressod.Prelude.{Bool, true, false}
use openpressod.Core.{Core}

pub record LedsHandler (core : Core) : Type 0 where
  pub power : core.Output
  pub brew : core.Output
  pub steam : core.Output

module _ {core : Core} where
  open core use {Output, set_state, activate_output, deactivate_output}

  -- The constructor.
  unfoldable pub make : Output → Output → Output → LedsHandler core
  make p b s = record {
    power = activate_output p;
    brew = activate_output b;
    steam = activate_output s;
  }

  -- The destructor.
  pub destroy : LedsHandler core → LedsHandler core
  destroy l = record {
    power = deactivate_output l.power;
    brew = deactivate_output l.brew;
    steam = deactivate_output l.steam;
  }

  set_all : Bool → Bool → Bool → LedsHandler core → LedsHandler core
  set_all p b s l = record {
    power = set_state p l.power;
    brew = set_state b l.brew;
    steam = set_state s l.steam;
  }

  unfoldable pub indicate_power_off : LedsHandler core → LedsHandler core
  unfolding set_all
  indicate_power_off = set_all false false false

  unfoldable pub indicate_brew_preheat : LedsHandler core → LedsHandler core
  unfolding set_all
  indicate_brew_preheat = set_all true false false

  unfoldable pub indicate_brew_ready : LedsHandler core → LedsHandler core
  unfolding set_all
  indicate_brew_ready = set_all true true false

  unfoldable pub indicate_brew_overheat : LedsHandler core → LedsHandler core
  unfolding set_all
  indicate_brew_overheat = set_all true false false

  unfoldable pub indicate_steam_preheat : LedsHandler core → LedsHandler core
  unfolding set_all
  indicate_steam_preheat = set_all true false false

  unfoldable pub indicate_steam_ready : LedsHandler core → LedsHandler core
  unfolding set_all
  indicate_steam_ready = set_all true false true

  unfoldable pub indicate_steam_overheat : LedsHandler core → LedsHandler core
  unfolding set_all
  indicate_steam_overheat = set_all true false false
