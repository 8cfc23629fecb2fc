-- ===== src/Infra/Numbers/Runs.antt =====
-- Runs of the number conversions.
use nu_maker_mbed_aliyun_io.Base.{◌≡◌, refl, some, [], ◌∷◌}
use nu_maker_mbed_aliyun_io.Infra.Numbers.{low_digits, int2str, str2uint, str2uint_from}

int2str_runs : int2str 4070 ≡ b'4' ∷ b'0' ∷ b'7' ∷ b'0' ∷ []
unfolding int2str low_digits
int2str_runs = refl

-- A number of more than 32 bits is taken modulo 2^32.
str2uint_wraps :
    str2uint (b'4' ∷ b'2' ∷ b'9' ∷ b'4' ∷ b'9' ∷ b'6' ∷ b'7' ∷ b'2' ∷ b'9' ∷ b'7' ∷ []) ≡ some 1
unfolding str2uint str2uint_from
str2uint_wraps = refl
