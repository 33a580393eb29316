-- ===== src/Java/Classes.antt =====
-- A class as the ASM library's visitors see it, and what is used of that library.
use phasic_j.Base.{ℕ, Bool, Text, Option, none, some, List}

-- Java code that may throw: none is an exception.
infixl 5 ◌>>=◌
abbrev pub ◌>>=◌ : {A B : Type 0} → Option A → (A → Option B) → Option B
none >>= f = none
some a >>= f = f a

-- Opcodes of the JVM specification.
abbrev pub monitorenter : ℕ
monitorenter = 194

abbrev pub monitorexit : ℕ
monitorexit = 195

abbrev pub invokestatic : ℕ
invokestatic = 184

-- The arguments of `visitMethodInsn`.
pub record Call : Type 0 where
  pub opcode : ℕ
  pub owner : Text
  pub name : Text
  pub descriptor : Text
  pub is_interface : Bool

-- One call of a `MethodVisitor`: `visitInsn`, `visitMethodInsn`, or any other, such as a label.
pub data Insn : Type 0 where
  insn : ℕ → Insn
  method_insn : Call → Insn
  other : Text → Insn

-- `rest` is the other arguments of the visit.
pub record Field : Type 0 where
  pub access : ℕ
  pub name : Text
  pub descriptor : Text
  pub rest : Text

pub record Method : Type 0 where
  pub access : ℕ
  pub name : Text
  pub descriptor : Text
  pub rest : Text
  pub body : List Insn

-- `header` is the other arguments of `visit`, and the attributes.
pub record Class : Type 0 where
  pub name : Text
  pub header : Text
  pub fields : List Field
  pub methods : List Method

-- `ClassReader`, which throws on bytes that are no class; `ClassWriter.toByteArray`, which throws on
-- a class or a method that is too large; and `ClassRemapper` with a `SimpleRemapper` from one name to
-- another.
pub record Asm : Type 0 where
  pub read : Text → Option Class
  pub write : Class → Option Text
  pub remap : Text → Text → Class → Class
