-- ===== src/Lib.antt =====
-- Frehg2, a coupled surface-subsurface flow and transport model: a verification of its C++ code.
--
-- A run is started by src/main.cpp. It splits the domain into one block of cells per MPI rank, gives
-- each active cell a row of the linear systems, marches in time, solves the surface and the
-- subsurface in turn, and refreshes the halo of the fields between the ranks before every kernel that
-- reads a neighbour. The modules follow these parts:
--
--   Grid       src/core/Grid.cpp. Blocks: blockSize and blockStart. Decomposition:
--              chooseDecomposition. Layout: the constructor's block and neighbours. Ids:
--              buildGlobalIds, with the count, the scan and the numbering.
--   Halo       src/core/HaloExchanger.cpp. Registry: add and ensureCapacity. Messages: planeIndices,
--              planeCount, packEntry, unpackEntry. Exchange: exchangeSelected on all ranks at once.
--              Corners: exchangeWithCorners. Placement joins the exchange to the Grid's neighbours.
--   Linear     src/core/LinearSystem.cpp. System: the state, setPattern, setValues, solve. Reuse: any
--              sequence of calls.
--   Timer      src/core/Timer.cpp: the stack and the table of sections.
--   Series     src/core/TimeSeries.cpp: the constructor's checks and value.
--   Raster     src/io/GridDataReader.cpp: readRaster2D, readIntRaster2D, readField3D.
--   Limiter    src/transport/Limiters.hpp: the superbee limiter.
--   Config     src/core/ConfigSchema.cpp: Schema (buildRootSchema), Suggestion (editDistance,
--              nearestKey), Check (checkNode, checkMap), Cross (crossChecks, validateRoot).
--              src/core/Config.cpp: Load (the extract functions, loadConfig), Emit
--              (resolvedConfigYaml). Document is the YAML document; Valid says what a document
--              without an error promises.
--   Groundwater src/gw. AdaptiveStep: adaptTimeStep on all ranks. Reallocation: the sends of a column
--              in reallocateWaterContent.
--   Boundary   src/bc. Kinds: the faces and cells. Polygon: the test of a point. Conditions: value,
--              BoundarySet, byName.
--   Surface    src/swe, on one rank. State: the members and the ranges of the kernels. FreeSurface:
--              enforceSurfBc, assembleRhs, assembleCoefficients, applyOutflowCorrections. System:
--              buildCooPattern, fillAndSolve. Fluxes: accumulateBoundaryFluxes. WetDry: updateDepth,
--              updateGeometry, cflLimiter, applyVelocityLimiters. VelocityBoundary: enforceVeloBc.
--              Momentum: momentumSource, updateDragCoef, updateVelocityField. Sources: evapRain.
--              Setup: what the constructor prepares. Step: beginStep, solveFreeSurface,
--              updateVelocity.
--   Coupling   src/coupling. Exchange: beginWindow, applySeepage, reduceAudit. Step: the step of the
--              Coupler, in lockstep and subcycled.
--   Driver     src/driver/Simulation.cpp. Loops: runCoupledLoop, runGroundwaterLoop. Surface:
--              runSurfaceLoop.
--   Program    src/main.cpp: the dispatch and the exit status.
--   Prelude    what the parts share. Checks: tests, and the theorems at concrete inputs.
--
-- Conventions. A class is a record of its members and a method that changes them returns the new
-- record. log::fatal throws, so that a routine that calls it returns a Result; the reason is a value
-- of the part's error type. A loop on fuel returns such an error, or that it ran out. An `int` is a native number, or ℤ where it may be negative; an id or a
-- rank of -1 (MPI_PROC_NULL) is `none`. The counters are unbounded, and the bound that
-- buildGlobalIds checks is a parameter. A field is a function of its indices (j, i, k), the owned
-- cells from 1 on and the halo at 0 and n + 1. A parallel kernel is a loop over the cells in their
-- order; Prelude.Sweeps says when the order does not matter.
--
-- `real_t` is a type with the operations of `Double` and no laws. A theorem that needs an order or an
-- exact comparison names it as a hypothesis, which excludes NaN where it says that < and ≤ are total.
-- IsExact of Prelude.Exact holds the laws of a ring, for the theorems about exact arithmetic.
--
-- Loops without a bound in the source run on fuel: the subcycled window and the adaptive time loops.
-- The fuel is an argument, and it is enough when it exceeds the number of rounds that the hypotheses
-- allow, since every round then returns to a state with fewer rounds left. The hypotheses speak of
-- admitted clocks only, since in floating point a step is lost beside a clock that is large enough.
--
-- Third-party code is a parameter: MPI_Dims_create and MPI_Exscan in Grid, the MPI_MIN reduction in
-- Groundwater, PETSc's objects and calls in Linear. yaml-cpp is a document, the conversions of its
-- scalars and the way numbers are written in Config, with the test whether a file exists.
-- Point-to-point messages are matched by destination, tag and length, as MPI does for posted
-- receives. Parts of the program that another part calls are records of operations: the two
-- solvers in Coupling, the solvers, monitors and files in Driver, the configuration and the
-- simulation in Program, the halo exchange and the forcing in Surface. Those of Coupling and Driver
-- may fail: an error leaves the step and the loop.
--
-- Not modelled: the kernels of src/gw and src/transport but the limiter, the adaptive step and the
-- sends of a column; the wind and the copying of configuration values in src/swe; in
-- src/core/Config.cpp the opening and parsing of the file, the printed description, and the initial
-- conditions, solvers and run-time section that are written back; the files written by src/io; the
-- formulas of src/atm, which are real-valued with transcendental functions; logging, device memory,
-- and the debug-build checks. In src/swe a minimum or maximum over the cells starts from
-- the infinity of `Double`, where the source starts from the largest finite number.
pub mod Prelude
pub mod Grid
pub mod Halo
pub mod Linear
pub mod Timer
pub mod Coupling
pub mod Driver
pub mod Groundwater
pub mod Program
pub mod Series
pub mod Raster
pub mod Limiter
pub mod Boundary
pub mod Surface
pub mod Config
pub mod Checks
