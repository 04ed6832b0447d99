-- ===== src/Examples/Names.antt =====
-- The theorems on subscription names at concrete options.
use xmc.Prelude.{true, false, [], ◌∷◌, ◌≡◌, refl, codes}
use xmc.Backends.{Bytes, SubscribeOptions, normal}
use xmc.Backends.Naming.{random_suffix}
use xmc.Backends.Naming.Unique.{}

suffix : random_suffix (1 ∷ 171 ∷ 255 ∷ []) ≡ codes "01abff"
unfolding random_suffix
suffix = refl

abbrev news : SubscribeOptions
news = record {
  topic = codes "news";
  group_id = [];
  timeout = 0;
  wait = false;
  verbosity = normal;
  selector = [];
  durable = false;
  acknowledge = true;
  extra = [];
}

abbrev grouped : SubscribeOptions
grouped = record news { group_id = codes "g" }

abbrev bytes : Bytes
bytes = 1 ∷ 171 ∷ []
