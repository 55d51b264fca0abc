-- ===== src/Protocol/Tests.antt =====
-- Messages and remote desktop requests.
use leo_one.Prelude.{Bytes, bytes, ◌≡◌, refl, none, some, [], ◌∷◌}
use leo_one.Types.{max_msg_size, ping}
use leo_one.Protocol.{fit, serialize, build_hello}
use leo_one.Protocol.Fixtures.{toy, some_config, some_stamp}

serialize_built : serialize toy ping none some_stamp 64 ≡ some (bytes "{}")
unfolding serialize fit
serialize_built = refl

pub hello_built : build_hello toy some_config some_stamp max_msg_size ≡ some (bytes "{}")
unfolding build_hello serialize fit
hello_built = refl

abbrev sixteen : Bytes
sixteen =
    0 ∷ 17 ∷ 34 ∷ 51 ∷ 68 ∷ 85 ∷ 255 ∷ 119 ∷ 255 ∷ 153 ∷ 170 ∷ 187 ∷ 204 ∷ 221 ∷ 238 ∷ 255 ∷ []
