-- ===== src/Basic/Keys/Equality.antt =====
-- Byte strings and map keys as the keys of Go maps.
use dbuf_demo_go.Common.Dict.{Eq}
use dbuf_demo_go.Common.{◌≡◌, ◌↔◌, true, subst, Bytes}
use dbuf_demo_go.Basic.Val.{DbufValString}
use dbuf_demo_go.Basic.Keys.{bytes_equal, key_equal}
use dbuf_demo_go.Basic.Keys.Laws.{bytes_equal→eq, bytes_equal_self, key_equal→eq, key_equal_self}

pub bytes_equal_iff : (a b : Bytes) → (bytes_equal a b ≡ true) ↔ (a ≡ b)
bytes_equal_iff a b =
    (bytes_equal→eq a b, λ e. subst (λ x. bytes_equal a x ≡ true) e (bytes_equal_self a))

pub key_equal_iff : (a b : DbufValString) → (key_equal a b ≡ true) ↔ (a ≡ b)
key_equal_iff a b = (key_equal→eq a b, λ e. subst (λ x. key_equal a x ≡ true) e (key_equal_self a))

instance abbrev pub bytes_eq : Eq Bytes
bytes_eq = record { beq = bytes_equal; beq_iff = bytes_equal_iff }

instance abbrev pub key_eq : Eq DbufValString
key_eq = record { beq = key_equal; beq_iff = key_equal_iff }
