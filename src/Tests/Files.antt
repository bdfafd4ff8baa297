-- ===== src/Tests/Files.antt =====
-- The configuration file and the status file at concrete inputs.
use istatserverlinux.Prelude.{false, [], ◌∷◌, some, ◌≡◌, refl, ◌⊎◌, arith, All}
use istatserverlinux.Prelude.Outcome.{done, crash}
use istatserverlinux.Text.{Bytes, codes}
use istatserverlinux.Xml.{element, Nodes, nil, cons}
use istatserverlinux.Text.Trim.{one_of}
use istatserverlinux.Clientset.{lines}
use istatserverlinux.Conf.{Config, parse, get}
use istatserverlinux.Conf.Lines.{IsSetting, parse_lem}
use istatserverlinux.Conf.Settings.{IsPlainSetting, first_value, get-settings_text}
use istatserverlinux.Stats.SmartMetadata.{SmartMetadata, StatusFile, refresh}

parse_lem_example :
    ((d : Config) × (parse (record { properties = [] }) (some (codes "port 5109\n")) ≡ done d)
      × All IsSetting (lines [] (codes "port 5109\n")))
    ⊎ (parse (record { properties = [] }) (some (codes "port 5109\n")) ≡ crash)
      × (¬ All IsSetting (lines [] (codes "port 5109\n")))
parse_lem_example = parse_lem (record { properties = [] }) (codes "port 5109\n")

abbrev setting : Bytes × Bytes
setting = (codes "port", codes "5109")

setting-IsPlainSetting : IsPlainSetting setting
unfolding one_of
setting-IsPlainSetting = record {
  name_ends = record {
    first = b'p';
    behind = codes "ort";
    before = codes "por";
    last = b't';
    first_is = refl;
    last_is = refl;
    first_bare = refl;
    last_bare = refl;
  };
  name_blank = ground arith;
  name_comment = ground arith;
  name_line = ground arith;
  value_ends = record {
    first = b'5';
    behind = codes "109";
    before = codes "510";
    last = b'9';
    first_is = refl;
    last_is = refl;
    first_bare = refl;
    last_bare = refl;
  };
  value_comment = ground arith;
  value_line = ground arith;
  value_plain = refl;
}

get-settings_text_example :
    (d : Config) × (parse (record { properties = [] }) (some (codes "port 5109\n")) ≡ done d)
    × ((var default : Bytes) → get d var default ≡ first_value (setting ∷ []) var default)
get-settings_text_example = get-settings_text (setting ∷ []) (setting-IsPlainSetting, tt)

abbrev volumes : Nodes
volumes =
    cons
      (element (codes "volume")
        ((codes "bsd", codes "sda1")
          ∷ (codes "state", codes "ok")
          ∷ (codes "checked", codes "100")
          ∷ [])
        nil)
      nil

abbrev unread : SmartMetadata
unread = record { last_read = 0; volumes = [] }

abbrev status_file : StatusFile
status_file = record {
  size = 200;
  root = some (element (codes "health") ((codes "version", codes "1") ∷ []) volumes);
  has_dtd = false;
}

read_at_200 : (refresh unread 200 (some status_file)).last_read ≡ 200
unfolding refresh
read_at_200 = refl
