-- ===== src/Capture/Contracts/Tests.antt =====
-- capture/contracts.py: the default policy, and the checks at concrete arguments.
use viskium.Prelude.{◌≡◌, refl, [], ◌∷◌}
use viskium.Core.Value.{Value, natural, ok, is_text}
use viskium.Capture.Contracts.Policy.{
  make_policy, check_policy, cooldown_ns, default_camera_policy, IsValid, arguments,
}
use viskium.Capture.Contracts.Frames.{make_frame}
use viskium.Capture.Contracts.Checks.{make_policy-IsValid, make_policy-arguments}

default_made : make_policy (arguments default_camera_policy) ≡ ok default_camera_policy
unfolding make_policy check_policy
default_made = refl

default-IsValid : IsValid default_camera_policy
default-IsValid = make_policy-IsValid (arguments default_camera_policy) default_made

make_policy-IsValid_example : IsValid default_camera_policy
make_policy-IsValid_example = make_policy-IsValid (arguments default_camera_policy) default_made

make_policy-arguments_example :
    make_policy (arguments default_camera_policy) ≡ ok default_camera_policy
make_policy-arguments_example = make_policy-arguments default_camera_policy default-IsValid

third_delay : cooldown_ns default_camera_policy 3 ≡ ok 1_000_000_000
unfolding cooldown_ns
third_delay = refl

small_frame :
    make_frame (1 ∷ 2 ∷ []) (natural 5) (natural 1) (natural 2) (natural 1) (Value.string "gray8")
    ≡ ok (record {
      payload = 1 ∷ 2 ∷ [];
      received_monotonic_ns = 5;
      width = 1;
      height = 2;
      stride = 1;
      pixel_format = "gray8";
    })
unfolding make_frame is_text
small_frame = refl
